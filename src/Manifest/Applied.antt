-- ===== src/Manifest/Applied.antt =====
-- krake/krake/controller/kubernetes/hooks.py: the last applied manifest, which starts as the
-- manifest of the specification and is completed with the observed fields that are known, from a
-- response of the Kubernetes API or from the last applied manifest before it.
pub mod Specification
pub mod Extends
pub mod Kept
use krake.Prelude.{ℕ, suc, String, Bool, true, false, not, List, [], ◌∷◌, ◌++◌}
use krake.Prelude.Tests.{if◌then◌else◌}
use krake.Prelude.Lists.{length}
use krake.Manifest.Results.{Error, key_error, index_error, type_error, Result, ok, raised, ◌>>=◌}
use krake.Manifest.Values.{
  Value, null, boolean, number, negative, str, list, dict, Items, nil, cons, Fields, end, field,
  member, subscript,
}
use krake.Manifest.Names.{camel_to_snake_case}
use krake.Manifest.Resources.{get_kubernetes_resource_idx, entry, set_entry}
use krake.Manifest.Schema.{set_item}
use krake.Manifest.Observed.{elements}

-- `if key not in manifest: manifest[key] = initial`
unfoldable pub ensure : String → Value → Value → Result Value
unfolding member set_item
ensure k initial manifest = do
  present ← member k manifest
  if present then ok manifest else set_item k initial manifest

-- `if key not in manifest: manifest[key] = source[name]`
unfoldable pub initialize : String → String → Value → Value → Result Value
unfolding member subscript set_item
initialize k name manifest source = do
  present ← member k manifest
  if present then ok manifest else do w ← subscript name source; set_item k w manifest

-- A schema's list observes what stands before its control dictionary.
unfoldable pub observes : Items → Bool
observes (cons v (cons w ws)) = true
observes _ = false

unfoldable pub list_items : Value → Result Items
list_items (list xs) = ok xs
list_items _ = raised type_error

unfoldable pub is_nil : Items → Bool
is_nil nil = true
is_nil (cons x xs) = false

-- A function on a list: its loop, if the schema observes an element and the source has one.
unfoldable pub with_elements : Bool → Value → Value → (Items → Items → Result Items) → Result Value
unfolding elements list_items is_nil
with_elements observed manifest source loop = if not observed then ok manifest else do
  ys ← elements source
  if is_nil ys then ok manifest else do ms ← list_items manifest; ms ← loop ms ys; ok (list ms)

-- The part of the manifest at `key`, which starts as `initial`, from `source[name]`.
unfoldable pub update_part :
    String → String → Value → (Value → Value → Result Value) → Value → Value → Result Value
unfolding ensure subscript set_item
update_part k name initial update manifest source = do
  manifest ← ensure k initial manifest
  part ← subscript k manifest
  from ← subscript name source
  part ← update part from
  set_item k part manifest

-- A schema's value and a response's element, at a place of the manifest that may be past its end.
unfoldable mutual
  unfolding camel_to_snake_case initialize member update_part with_elements observes

  -- update_last_applied_manifest_dict_from_resp
  pub complete_fields : Fields → Value → Value → Result Value
  complete_fields end manifest response = ok manifest
  complete_fields (field k v fs) manifest response = do
    present ← member (camel_to_snake_case k) response
    manifest ← (if present then complete_key k v manifest response else raised key_error)
    complete_fields fs manifest response

  pub complete_key : String → Value → Value → Value → Result Value
  complete_key k (dict fs) manifest response =
      update_part k (camel_to_snake_case k) (dict end) (complete_fields fs) manifest response
  complete_key k (list xs) manifest response =
      update_part k (camel_to_snake_case k) (list nil)
        (λ part source. with_elements (observes xs) part source (complete_items xs)) manifest
        response
  complete_key k _ manifest response = initialize k (camel_to_snake_case k) manifest response

  -- The loop of update_last_applied_manifest_list_from_resp, over what is left of the three lists.
  pub complete_items : Items → Items → Items → Result Items
  complete_items nil ms ys = ok ms
  complete_items (cons v nil) ms ys = ok ms
  complete_items (cons v (cons w ws)) ms ys = elim ys [
    | nil ↦ ok ms
    | cons y rest ↦ elim ms [
      | nil ↦ do
        m ← complete_missing v y
        others ← complete_items (cons w ws) nil rest
        ok (cons m others)
      | cons m0 more ↦ do
        m ← complete_element v m0 y
        others ← complete_items (cons w ws) more rest
        ok (cons m others)
    ]
  ]

  -- A schema's dictionary decides; for the rest it is the response's element that does.
  pub complete_element : Value → Value → Value → Result Value
  complete_element (dict fs) m y = complete_fields fs m y
  complete_element (list xs) m y = elim y [
    | list ys ↦ with_elements (observes xs) m (list ys) (complete_items xs)
    | _ ↦ ok m
  ]
  complete_element _ m y = elim y [ list ys ↦ raised type_error | _ ↦ ok m ]

  pub complete_missing : Value → Value → Result Value
  complete_missing (dict fs) y = complete_fields fs (dict end) y
  complete_missing (list xs) y = elim y [
    | list ys ↦ with_elements (observes xs) (list nil) (list ys) (complete_items xs)
    | other ↦ ok other
  ]
  complete_missing _ y = elim y [ list ys ↦ raised type_error | other ↦ ok other ]

-- A resource of a schema is a dictionary.
unfoldable pub complete_resource : Value → Value → Value → Result Value
unfolding complete_fields
complete_resource (dict fs) manifest response = complete_fields fs manifest response
complete_resource _ manifest response = raised type_error

-- update_last_applied_manifest_from_resp: the schema, the manifest, the response.
unfoldable pub update_last_applied_manifest_from_resp :
    List Value → List Value → Value → Result (List Value)
unfolding get_kubernetes_resource_idx entry set_entry complete_resource
update_last_applied_manifest_from_resp schema applied response = do
  idx_applied ← get_kubernetes_resource_idx applied response false
  idx_observed ← get_kubernetes_resource_idx schema response false
  manifest ← entry idx_applied applied
  resource ← entry idx_observed schema
  completed ← complete_resource resource manifest response
  ok (set_entry idx_applied completed applied)
