-- ===== src/Table.antt =====
-- frontend/src/features/explorer/ExplorerTable.tsx: the table of entries, its dialogs and previews.
pub mod Window
pub mod Selection
pub mod Lookup
pub mod Preview
pub mod Remote
pub mod SortHeader
mod Tests
