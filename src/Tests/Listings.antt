-- ===== src/Tests/Listings.antt =====
-- The theorem on the list of inspections, at one inspection with a photo that is not uploaded.
use cc_005_offline_inspectio.Base.{List, [], map, ◌≡◌, refl}
use cc_005_offline_inspectio.Base.Rows.{first, select, exists, order_by, update}
use cc_005_offline_inspectio.Models.{InspectionDto}
use cc_005_offline_inspectio.Tx.{Result, ok, World, attempt, pure, query, statement, ◌>>=◌}
use cc_005_offline_inspectio.Tx.Inversion.{Returns}
use cc_005_offline_inspectio.Snapshot.{scan_inspection}
use cc_005_offline_inspectio.Sync.Statements.{incomplete_attachments}
use cc_005_offline_inspectio.Inspections.{Reply, listed}
use cc_005_offline_inspectio.Inspections.Listing.{
  scan_with_aggregates, owned, list_rows, fill, attachment_rows, conflict_rows, fill_attachments,
  fill_open_conflicts, listing, with_open_conflicts, with_all_attachments, list_inspections,
}
use cc_005_offline_inspectio.Inspections.Listing.Complete.{entry, list_inspections-entries}
use cc_005_offline_inspectio.Tests.Setting.{alice, busy}

abbrev entries_of : Result Reply → List InspectionDto
entries_of (ok (listed ds)) = ds
entries_of _ = []

abbrev asked : Result Reply × World
asked = list_inspections alice busy

listed_fine : Returns (list_inspections alice) busy (listed (entries_of asked.0)) asked.1
unfolding list_inspections with_all_attachments with_open_conflicts listing fill_attachments
    fill_open_conflicts list_rows owned scan_with_aggregates fill attachment_rows conflict_rows
    scan_inspection incomplete_attachments attempt pure query statement first select exists order_by
    update ◌>>=◌
listed_fine = (refl, refl)

list_inspections-entries_example : entries_of asked.0 ≡ map (entry busy.db) (owned alice busy.db)
list_inspections-entries_example =
    list_inspections-entries alice (entries_of asked.0) busy asked.1 refl listed_fine
