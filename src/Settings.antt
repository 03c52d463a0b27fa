-- ===== src/Settings.antt =====
-- frontend/src/lib/settings.tsx and preferences.tsx: what the console keeps in `localStorage`, and
-- frontend/src/pages/SettingsPage.tsx: the test of a connection.
pub mod Stored
pub mod Connection
pub mod Quota
mod Tests
