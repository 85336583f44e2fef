-- ===== src/MultichannelMeters/Tests.antt =====
-- A row for three meters of an array, and the theorems there.
use fbutils.Prelude.{ℕ, ◌<◌, ◌≡◌, refl, arith, some, length, get_elem?, or_else, [], ◌∷◌}
use fbutils.MultichannelMeters.{
  MultichannelMeters, new_label, new_meters, put_component, put_label, update_num_meters,
  update_labels, timer_callback,
}
use fbutils.MultichannelMeters.Growth.{added}
use fbutils.MultichannelMeters.Rows.{update_num_meters_lem}
use fbutils.MultichannelMeters.References.{
  constructed, updated, changed, labelled, ticked, IsRow, Reach-IsRow,
}

abbrev three : MultichannelMeters
three = update_num_meters 64 3 (new_meters 100)

update_num_meters_lem_example :
    let left = three in
    (left.width ≡ 100)
    × (length left.components ≡ 3)
    × (length left.labels ≡ 3)
    × ((i : ℕ)
        → i < 3
        → (get_elem? left.components i
            ≡ some (put_component 100 3 i (or_else (get_elem? [] i) (added 64 i))))
          × (get_elem? left.labels i
              ≡ some (put_label 100 3 i (or_else (get_elem? [] i) new_label))))
update_num_meters_lem_example = update_num_meters_lem 64 3 (new_meters 100) refl (omega arith)

Reach-IsRow_example : IsRow 96 (
    timer_callback
      (update_num_meters 96 2 (update_num_meters 0 0 (update_labels (λ i. i ∷ []) three))))
Reach-IsRow_example =
    Reach-IsRow 96
      (timer_callback
        (update_num_meters 96 2 (update_num_meters 0 0 (update_labels (λ i. i ∷ []) three))))
      (ticked 96 _ (
        updated 96 2 _
          (changed 64 96 0 _ (labelled 64 (λ i. i ∷ []) _ (updated 64 3 _ (constructed 64 100))))))
