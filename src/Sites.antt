-- ===== src/Sites.antt =====
-- frontend/src/features/sites and frontend/src/pages/SitesPage.tsx: the forms that create, change
-- and publish sites.
pub mod Form
pub mod Publish
pub mod Page
mod Tests
