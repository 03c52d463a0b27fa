-- ===== src/Lib.antt =====
-- light-oss: the console of an object store, frontend/src.
--
-- The console shows the buckets and the objects of a server and sends the changes that the user
-- asks for. This library models the parts of it that decide something: what is shown, what is
-- selected, what is sent, and what an answer changes.
--
-- - Base: JavaScript strings as lists of UTF-16 code units (Base.Text), `trim`, `split` and
--   `join` (Base.Strip, Base.Split), `Set` as a list without duplicates (Base.JsSet), the
--   names that objects inherit (Base.JsObject), what a step relation reaches (Base.Reach), Boolean
--   tests and lists over the native numbers (Base.Tests, Base.Lists).
-- - Explorer: frontend/src/lib/explorer.ts, one function for each function there, in snake case:
--   `normalizeExplorerPrefix` is `normalize_prefix`, `joinExplorerPath` is `join_path`, and so on.
--   A directory is a list of segments in Explorer.Segments, and its path ends in a slash.
-- - Browser: frontend/src/pages/BucketObjectsPage.tsx, the address parameters, the cursor and the
--   directory histories, and the effects after each render. A handler is a function on a `Page`;
--   `act` is a handler and the effects that follow it; Browser.Events has runs of handlers.
-- - Overwrite: the same page, the upload of an object with the check of its key and the dialog
--   that confirms an overwrite. An asynchronous handler is cut at each `await`, and
--   Overwrite.Steps lets the answers arrive in any order. Overwrite.Dialog adds the dialog of
--   frontend/src/features/explorer/UploadObjectDialog.tsx.
-- - Bulk: the same page, the selection of entries, the download and the deletion of all that is
--   selected. The loop of a bulk download is one step.
-- - Actions: the same page, the mutations on folders and single entries and the downloads, as a
--   step relation, the dialogs that publish (PublishSiteDialog.tsx, PublishObjectSiteDialog.tsx),
--   and those that upload and create a folder (Actions.Dialogs). The four states with the path of a busy row are one function, `paths`.
-- - Pins: frontend/src/features/buckets/usePinnedBuckets.ts, the pinned buckets of each service,
--   over a `localStorage` that may throw (Pins.Storage). Pins.Services has the sets of ids that the
--   hook implements for all services.
-- - Buckets: frontend/src/pages/BucketsPage.tsx and features/buckets/useDeleteBucket.ts. An object
--   used as a map is an association list, and a name that every object inherits is no member of it.
--   Buckets.Card (features/buckets/BucketCard.tsx) has the dialogs that delete a bucket, for all
--   cards, and Buckets.Create (CreateBucketForm.tsx) the one that creates a bucket, as step
--   relations.
-- - Dashboard: frontend/src/pages/DashboardPage.tsx and lib/connection.ts, the latest bucket, the
--   cards of the system part, and the pinned buckets after a deletion.
-- - Recycle: frontend/src/features/buckets/RecycleBinDialog.tsx, the selection, the pages and the
--   confirmations of the recycle bin, and the answers to a restore and to a deletion.
-- - Api: frontend/src/api. Api.Types has the records of the server's answers (types.ts),
--   Api.Requests and Api.Objects the requests and the headers (client.ts, buckets.ts, health.ts,
--   system.ts, objects.ts), Api.Sites those on sites (sites.ts), Api.Encoding the keys in
--   addresses and `decodeURIComponent` (Api.Encoding.Decode), Api.Objects.Archive the file name of a
--   downloaded archive, whose regular expressions are functions, and Api.Objects.Named the names that
--   the server writes as extended values, Api.Errors what a failed request becomes, Api.FolderUpload the manifest of a folder
--   (frontend/src/lib/folder-upload.ts), Api.Health the badges (frontend/src/lib/health.ts).
-- - Table: frontend/src/features/explorer/ExplorerTable.tsx, the window of rendered rows, the
--   dialogs of entries (Table.Lookup), the kind and the limits of a preview and the details dialog
--   (Table.Preview), the text preview with its requests as a step relation (Table.Remote), the
--   header that sorts by a column (Table.SortHeader), and the checkbox of the header over the
--   selection of the page (Table.Selection).
-- - Settings: frontend/src/lib/settings.tsx and lib/preferences.tsx (Settings.Stored), and of
--   frontend/src/pages/SettingsPage.tsx the draft and the test of a connection as a step relation
--   (Settings.Connection), and the storage limit with its text (Settings.Quota).
-- - Sites: frontend/src/features/sites/SiteFormDialog.tsx (Sites.Form) and
--   UploadAndPublishSiteDialog.tsx (Sites.Publish), and Sites.Page,
--   frontend/src/pages/SitesPage.tsx with the mutations of their values as a step relation.
-- - RootEnv: frontend/root-env.ts, the defaults that a build reads from an `.env` file; the regular
--   expression of a line is a function that takes the line apart.
-- - Translations: frontend/src/lib/i18n.tsx, the values in a template, whose regular expression is
--   a scanner, and the reasons of failed restores.
--
-- Browser and Overwrite use Explorer for prefixes and keys; Recycle uses the records of Api.Types;
-- a request that may throw before it is sent is an Option.
--
-- All recursion is structural; only the decimal digits of a number use fuel, one more than the
-- number, which is enough. `Number(text)` and `JSON` are arguments: the first is a function to a
-- natural number or none, the second a `Codec` that reads back what it wrote. Numbers are natural
-- numbers; the ids that the pins accept stay below 2 ^ 53.
--
-- Not modelled: the server (backend), which is another program, the gateway, rendering, styles and
-- the dictionaries, the contents of files and of a downloaded archive, the texts of sizes and dates, and the
-- remaining dialogs. The text of a storage limit is read as its exact value, of which a double keeps
-- 53 bits; percentages are fractions. A member of the stored settings that is not a string counts as
-- missing, and `invalidateQueries` ends without an exception, as it does by default. In Overwrite
-- the steps keep the shown directory; progress reports of a running upload are left out there.
pub mod Base
pub mod Explorer
pub mod Browser
pub mod Pins
pub mod Api
pub mod Recycle
pub mod Overwrite
pub mod Bulk
pub mod Actions
pub mod Buckets
pub mod Dashboard
pub mod Table
pub mod Settings
pub mod Sites
pub mod RootEnv
pub mod Translations
