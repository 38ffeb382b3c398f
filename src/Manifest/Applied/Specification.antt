-- ===== src/Manifest/Applied/Specification.antt =====
-- krake/krake/controller/kubernetes/hooks.py: `update_last_applied_manifest_from_spec`, which takes
-- over what is known of the observed fields that the manifest of the specification leaves open.
use krake.Prelude.{ℕ, String, false, List, [], ◌∷◌, ◌++◌}
use krake.Prelude.Tests.{if◌then◌else◌}
use krake.Prelude.Lists.{length}
use krake.Manifest.Results.{index_error, type_error, Result, ok, raised, ◌>>=◌}
use krake.Manifest.Values.{Value, list, dict, Items, nil, cons, Fields, end, field, member}
use krake.Manifest.Resources.{get_kubernetes_resource_idx, entry, set_entry}
use krake.Manifest.Applied.{initialize, update_part, with_elements, observes}

unfoldable mutual
  unfolding initialize member update_part with_elements observes

  -- update_last_applied_manifest_dict_from_spec: the new manifest, the one before it.
  pub merge_fields : Fields → Value → Value → Result Value
  merge_fields end new old = ok new
  merge_fields (field k v fs) new old = do
    known ← member k old
    new ← (if known then merge_key k v new old else ok new)
    merge_fields fs new old

  pub merge_key : String → Value → Value → Value → Result Value
  merge_key k (dict fs) new old = update_part k k (dict end) (merge_fields fs) new old
  merge_key k (list xs) new old =
      update_part k k (list nil)
        (λ part source. with_elements (observes xs) part source (merge_items xs)) new old
  merge_key k _ new old = initialize k k new old

  -- The loop of update_last_applied_manifest_list_from_spec.
  pub merge_items : Items → Items → Items → Result Items
  merge_items nil ms ys = ok ms
  merge_items (cons v nil) ms ys = ok ms
  merge_items (cons v (cons w ws)) ms ys = elim ys [
    | nil ↦ ok ms
    | cons y rest ↦ elim ms [
      | nil ↦ do
        m ← merge_missing v y
        others ← merge_items (cons w ws) nil rest
        ok (cons m others)
      | cons m0 more ↦ do
        m ← merge_element v m0 y
        others ← merge_items (cons w ws) more rest
        ok (cons m others)
    ]
  ]

  pub merge_element : Value → Value → Value → Result Value
  merge_element (dict fs) m y = merge_fields fs m y
  merge_element (list xs) m y = with_elements (observes xs) m y (merge_items xs)
  merge_element _ m y = ok m

  pub merge_missing : Value → Value → Result Value
  merge_missing (dict fs) y = merge_fields fs (dict end) y
  merge_missing (list xs) y = with_elements (observes xs) (list nil) y (merge_items xs)
  merge_missing _ y = ok y

unfoldable pub merge_resource : Value → Value → Value → Result Value
unfolding merge_fields
merge_resource (dict fs) new old = merge_fields fs new old
merge_resource _ new old = raised type_error

-- The entry of a resource, or an empty one at the end of the manifest.
unfoldable pub entry_or_new : Value → List Value → Result (ℕ × List Value)
unfolding get_kubernetes_resource_idx
entry_or_new resource manifest = elim (get_kubernetes_resource_idx manifest resource false) [
  | ok idx ↦ ok (idx, manifest)
  | raised index_error ↦ ok (length manifest, manifest ++ dict end ∷ [])
  | raised e ↦ raised e
]

-- The body of the loop, and the loop of `update_last_applied_manifest_from_spec` over the schema.
unfoldable pub merge_entry : Value → List Value → List Value → Result (List Value)
unfolding get_kubernetes_resource_idx entry set_entry entry_or_new merge_resource
merge_entry resource old new = elim (get_kubernetes_resource_idx old resource false) [
  | raised index_error ↦ ok new
  | raised e ↦ raised e
  | ok idx_old ↦ do
    (idx_new, new) ← entry_or_new resource new
    part ← entry idx_new new
    source ← entry idx_old old
    part ← merge_resource resource part source
    ok (set_entry idx_new part new)
]

unfoldable pub update_last_applied_manifest_from_spec :
    List Value → List Value → List Value → Result (List Value)
unfolding merge_entry
update_last_applied_manifest_from_spec [] old new = ok new
update_last_applied_manifest_from_spec (resource ∷ schema) old new = do
  new ← merge_entry resource old new
  update_last_applied_manifest_from_spec schema old new
