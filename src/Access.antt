-- ===== src/Access.antt =====
-- backend/src/application/membership-access.ts over the in-memory store: whether a buyer is a member of
-- a creator. What the verifier answers is a parameter; a call of it that throws ends the check.
pub mod Evidence
use onlykas.Prelude.{
  String, Bool, true, false, Option, none, some, List, [], ◌∷◌, ◌++◌, map, ◌==◌, if◌then◌else◌,
}
use onlykas.Prelude.Lists.{any}
use onlykas.Domain.{
  CreatorCovenant, MembershipPurchase, MembershipCheck, MembershipCheckStatus, valid,
}
use onlykas.Ports.{Call, returns, throws, MembershipVerifier}
use onlykas.Store.{Store}
use onlykas.Store.Covenants.{get_creator_covenant, list_creator_covenants}
use onlykas.Store.Purchases.{membership_receipts, create_membership_purchase}

-- `set.add(id)`: a set keeps the order of the first insertions.
abbrev pub add_id : String → List String → List String
add_id id ids = if any (λ (x : String). x == id) ids then ids else ids ++ id ∷ []

abbrev pub add_ids : List String → List String → List String
add_ids [] ids = ids
add_ids (x ∷ xs) ids = add_ids xs (add_id x ids)

-- An id that is not given or empty counts as none.
abbrev pub given : Option String → Option String
given none = none
given (some id) = if id == "" then none else some id

-- `new Set(known.map((value) => value.covenantId))`, with that of the current covenant.
unfoldable pub covenant_ids : String → Store → List String
covenant_ids creator s =
    let known =
      add_ids (map (λ (v : CreatorCovenant). v.covenant_id) (list_creator_covenants creator s))
        [] in
    elim (get_creator_covenant creator s) [
      | none ↦ known
      | some current ↦ add_id current.covenant_id known
    ]

abbrev pub receipt_ids : List String → MembershipPurchase → List String
receipt_ids ids receipt = elim (given receipt.covenant_id) [ none ↦ ids | some id ↦ id ∷ [] ]

abbrev pub is_valid : MembershipCheck → Bool
is_valid check = elim check.status [ MembershipCheckStatus.valid ↦ true | _ ↦ false ]

module _ (verifier : MembershipVerifier) (buyer creator : String) where
  unfoldable pub any_valid : String → List String → Call Bool
  any_valid transaction [] = returns false
  any_valid transaction (id ∷ ids) =
      let rest = any_valid transaction ids in
      elim (verifier.verify_utxo transaction 1 buyer id creator) [
        | throws ↦ throws
        | returns check ↦ if is_valid check then returns true else rest
      ]

  unfoldable pub any_receipt : List String → List MembershipPurchase → Call Bool
  any_receipt ids [] = returns false
  any_receipt ids (r ∷ rs) =
      let rest = any_receipt ids rs in
      elim (any_valid r.transaction_id (receipt_ids ids r)) [
        | throws ↦ throws
        | returns found ↦ if found then returns true else rest
      ]

  -- A membership that is found is stored; the in-memory store throws nothing there.
  unfoldable pub discover : List (Option String) → Store → Call Bool × Store
  discover [] s = (returns false, s)
  discover (id ∷ ids) s =
      let rest = discover ids s in
      elim (verifier.find_membership buyer creator id) [
        | throws ↦ (throws, s)
        | returns found ↦ elim found [
          | none ↦ rest
          | some check ↦ (
            returns true,
            (create_membership_purchase
                (record {
                  transaction_id = check.transaction_id;
                  buyer = buyer;
                  creator = creator;
                  covenant_id = given id;
                })
                s).1,
          )
        ]
      ]

-- `covenantIds.size ? [...covenantIds] : [undefined]`
abbrev pub or_undefined : List String → List (Option String)
or_undefined [] = none ∷ []
or_undefined (id ∷ ids) = map some (id ∷ ids)

unfoldable pub is_active : Option MembershipVerifier → String → String → Store → Call Bool × Store
is_active none buyer creator s = (returns false, s)
is_active (some verifier) buyer creator s =
    let ids = covenant_ids creator s in
    elim (any_receipt verifier buyer creator ids (membership_receipts buyer creator s)) [
      | throws ↦ (throws, s)
      | returns found ↦
          if found then (returns true, s) else discover verifier buyer creator (or_undefined ids) s
    ]
