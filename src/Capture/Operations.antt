-- ===== src/Capture/Operations.antt =====
-- input-capture/src/lib.rs: `create` and `destroy` on valid maps.
use lan_mouse_pro.Common.{
  ℕ, ◌≡◌, ◌≢◌, refl, sym, ap, ◌∙◌, inl, inr, Option, none, some, Option-cases, List, [], ◌∷◌, ◌++◌,
  append-nil,
}
use lan_mouse_pro.Capture.Run.{panic, Safe}
use lan_mouse_pro.Capture.Barriers.{Backend, InputCapture, retain, create, keep_remaining, destroy}
use lan_mouse_pro.Capture.Invariant.{
  IsValid, ids_at, nonempty, ids_at-put, ids_at-erase, ids_at-erase_ne, nonempty-some,
  nonempty-none, nonempty-last, nonempty-ids_at,
}
use lan_mouse_pro.Client.Types.{BarrierKey, BarrierKey-discrete}
use lan_mouse_pro.HashMap
use mathlib.Core.Logic.{if_pos, if_neg}
use native.Mathlib.Decide.{ℕ_discrete}

abbrev pub Map : Type 0
Map = List (ℕ × BarrierKey)

abbrev pub key_of_id : ℕ → Map → Option BarrierKey
key_of_id id m = HashMap.get ℕ_discrete id m

-- Every other id is where it was.
abbrev pub OthersStay : ℕ → Map → Map → Type 0
OthersStay id before after = (q : ℕ) → id ≢ q → key_of_id q after ≡ key_of_id q before

-- What `create` leaves.
abbrev pub IsPut : {B : Type 0} → ℕ → BarrierKey → InputCapture B → InputCapture B → Type 0
IsPut id key before after =
    IsValid after
    × ((key_of_id id after.id_map ≡ some key) × OthersStay id before.id_map after.id_map)

-- What `destroy` leaves.
abbrev pub IsGone : {B : Type 0} → ℕ → InputCapture B → InputCapture B → Type 0
IsGone id before after =
    IsValid after × ((key_of_id id after.id_map ≡ none) × OthersStay id before.id_map after.id_map)

-- The maps after a new id was put at its key.
put-IsPut :
    {B : Type 0} (b : B) (id : ℕ) (key : BarrierKey) (ids : List ℕ) (ic : InputCapture B)
    → IsValid ic
    → key_of_id id ic.id_map ≡ none
    → ids_at key ic.id_map ≡ ids
    → IsPut id key ic (record ic {
      capture = b;
      position_map = HashMap.put BarrierKey-discrete key (ids ++ (id ∷ [])) ic.position_map;
      id_map = HashMap.put ℕ_discrete id key ic.id_map;
    })
put-IsPut b id key ids ic valid fresh at = (
  record {
    ids_Distinct = HashMap.Distinct-put ℕ_discrete id key ic.id_map valid.ids_Distinct;
    keys_Distinct =
        HashMap.Distinct-put BarrierKey-discrete key _ ic.position_map valid.keys_Distinct;
    inverse = λ q.
        rw
          (
            HashMap.get-put BarrierKey-discrete key q (ids ++ (id ∷ [])) ic.position_map,
            ids_at-put id key q ic.id_map fresh,
          )
          (elim (BarrierKey-discrete key q) [
            | yes p ↦
                rw
                  (
                    if_pos (BarrierKey-discrete key q) p,
                    if_pos (BarrierKey-discrete key q) p,
                    sym p,
                    at,
                  )
                  (sym (nonempty-last ids id))
            | no p ↦
                rw
                  (
                    if_neg (BarrierKey-discrete key q) p,
                    if_neg (BarrierKey-discrete key q) p,
                    append-nil (ids_at q ic.id_map),
                  )
                  (valid.inverse q)
          ]);
  },
  (
    HashMap.get-put_self ℕ_discrete id key ic.id_map,
    λ q h. HashMap.get-put_ne ℕ_discrete id q key ic.id_map h,
  ),
)

-- On valid maps `create` under a new handle does not panic. Unless the backend fails, the handle
-- stands at the key, every other handle where it was, and the maps are valid.
pub create-IsPut :
    {B : Type 0} (backend : Backend B) (id : ℕ) (key : BarrierKey) (ic : InputCapture B)
    → IsValid ic
    → key_of_id id ic.id_map ≡ none
    → Safe (IsPut id key ic) (create backend id key ic)
unfolding create
create-IsPut backend id key ic valid fresh =
    rw (fresh, create)
      (elim (Option-cases (HashMap.get BarrierKey-discrete key ic.position_map)) [
        | inl absent ↦ elim (Option-cases (backend.create key ic.capture)) [
          | inl fails ↦ rw (absent, fails) tt
          | inr (b, ok) ↦
              rw (absent, ok)
                (put-IsPut b id key [] ic valid fresh
                  (nonempty-none _ (sym (valid.inverse key) ∙ absent)))
        ]
        | inr (v, present) ↦ rw present (
            put-IsPut ic.capture id key v ic valid fresh
              (nonempty-some _ v (sym (valid.inverse key) ∙ present)))
      ])

-- The maps after the id was taken out of the ids at its key.
module _ {B : Type 0} (backend : Backend B) (id : ℕ) (key : BarrierKey) (ic : InputCapture B)
    (valid : IsValid ic) (here : key_of_id id ic.id_map ≡ some key) where
  others : OthersStay id ic.id_map (HashMap.erase ℕ_discrete id ic.id_map)
  others q h = HashMap.get-erase_ne ℕ_discrete id q ic.id_map h

  elsewhere :
      (q : BarrierKey)
      → key ≢ q
      → HashMap.get BarrierKey-discrete q ic.position_map
        ≡ nonempty (ids_at q (HashMap.erase ℕ_discrete id ic.id_map))
  elsewhere q h = valid.inverse q ∙ ap nonempty (sym (ids_at-erase_ne id key q ic.id_map here h))

  keep_remaining-IsGone :
      (left : List ℕ)
      → retain id (ids_at key ic.id_map) ≡ left
      → Safe (IsGone id ic) (
          keep_remaining backend key left
            (record ic { id_map = HashMap.erase ℕ_discrete id ic.id_map }))
  unfolding keep_remaining nonempty
  keep_remaining-IsGone [] empty = elim (Option-cases (backend.destroy key ic.capture)) [
    | inl fails ↦ rw (fails, keep_remaining) tt
    | inr (b, ok) ↦
        rw (ok, keep_remaining)
          (
            record {
              ids_Distinct = HashMap.Distinct-erase ℕ_discrete id ic.id_map valid.ids_Distinct;
              keys_Distinct =
                  HashMap.Distinct-erase BarrierKey-discrete key ic.position_map
                    valid.keys_Distinct;
              inverse = λ q. elim (BarrierKey-discrete key q) [
                | yes p ↦ rw (sym p) (
                    HashMap.get-erase_self BarrierKey-discrete key ic.position_map
                      valid.keys_Distinct
                    ∙ sym (ap nonempty (ids_at-erase id key ic.id_map valid.ids_Distinct ∙ empty)))
                | no p ↦
                    HashMap.get-erase_ne BarrierKey-discrete key q ic.position_map p ∙ elsewhere q p
              ];
            },
            (HashMap.get-erase_self ℕ_discrete id ic.id_map valid.ids_Distinct, others),
          )
  ]
  keep_remaining-IsGone (i ∷ is) rest = (
    record {
      ids_Distinct = HashMap.Distinct-erase ℕ_discrete id ic.id_map valid.ids_Distinct;
      keys_Distinct =
          HashMap.Distinct-put BarrierKey-discrete key (i ∷ is) ic.position_map valid.keys_Distinct;
      inverse = λ q. elim (BarrierKey-discrete key q) [
        | yes p ↦ rw (sym p) (
            HashMap.get-put_self BarrierKey-discrete key (i ∷ is) ic.position_map
            ∙ sym (ap nonempty (ids_at-erase id key ic.id_map valid.ids_Distinct ∙ rest)))
        | no p ↦
            HashMap.get-put_ne BarrierKey-discrete key q (i ∷ is) ic.position_map p ∙ elsewhere q p
      ];
    },
    (HashMap.get-erase_self ℕ_discrete id ic.id_map valid.ids_Distinct, others),
  )

-- On valid maps `destroy` of a handle that stands at a key does not panic. Unless the backend fails,
-- the handle stands nowhere, every other handle where it was, and the maps are valid.
pub destroy-IsGone :
    {B : Type 0} (backend : Backend B) (id : ℕ) (key : BarrierKey) (ic : InputCapture B)
    → IsValid ic
    → key_of_id id ic.id_map ≡ some key
    → Safe (IsGone id ic) (destroy backend id ic)
unfolding destroy
destroy-IsGone backend id key ic valid here =
    elim (Option-cases (HashMap.get BarrierKey-discrete key ic.position_map)) [
      | inl absent ↦
          absurd (nonempty-ids_at id key ic.id_map here (sym (valid.inverse key) ∙ absent))
      | inr (v, present) ↦
          rw (here, destroy, present)
            (keep_remaining-IsGone backend id key ic valid here (retain id v)
              (ap (retain id) (nonempty-some _ v (sym (valid.inverse key) ∙ present))))
    ]

-- A handle that stands at a key makes `create` panic, one that stands nowhere `destroy`.
pub create-destroy-panic :
    {B : Type 0} (backend : Backend B) (id : ℕ) (ic : InputCapture B)
    → ((key old : BarrierKey)
        → key_of_id id ic.id_map ≡ some old
        → create backend id key ic ≡ panic)
      × (key_of_id id ic.id_map ≡ none → destroy backend id ic ≡ panic)
unfolding create destroy
create-destroy-panic backend id ic = ((λ key old h. rw (h, create) refl), λ h. rw (h, destroy) refl)
