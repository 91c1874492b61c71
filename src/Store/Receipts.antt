-- ===== src/Store/Receipts.antt =====
-- The purchases of `MemoryStore`: a receipt outlives every call but the deletion of its post, and
-- no transaction pays for two receipts.
use onlykas.Prelude.{
  String, ◌≡◌, refl, ◌≢◌, some, List, [], ◌∷◌, arith, ◌==◌, eq_iff, inl, inr, Bool-cases,
}
use onlykas.Prelude.Lists.{All, any, any-In}
use onlykas.Map.{get, values}
use onlykas.Map.Laws.{get-set, get-prune, get-In}
use onlykas.Domain.{Purchase}
use onlykas.Store.{Store, empty}
use onlykas.Store.Posts
use onlykas.Store.Purchases
use onlykas.Store.Purchases.{purchase_key, create_purchase, get_purchase}
use onlykas.Store.Keys.{IsKeyed, purchase_id}
use onlykas.Store.History.{apply-IsKeyed, empty-IsKeyed}
use onlykas.Store.Frames.{frame}
use onlykas.Store.Op.{Op, apply, run}

-- The call deletes the post `id`.
abbrev pub Deletes : String → Op → Type 0
Deletes id (Op.delete_post other) = other ≡ id
Deletes id _ = ⊥

module _ (key : String) (p : Purchase) (s : Store) where
  pub create_purchase-keeps :
      (v : Purchase)
      → get key s.purchases ≡ some p
      → get key (create_purchase v s).1.purchases ≡ some p
  unfolding create_purchase
  create_purchase-keeps v h = ground (
    arith,
    eq_iff (purchase_key v.post_id v.buyer) key,
    get-set (purchase_key v.post_id v.buyer) key v s.purchases,
  )

  delete_post-keeps :
      (id : String)
      → id ≢ p.post_id
      → IsKeyed s
      → get key s.purchases ≡ some p
      → get key (Posts.delete_post id s).1.purchases ≡ some p
  unfolding Posts.delete_post
  delete_post-keeps id ne k h = ground (
    arith,
    eq_iff p.post_id id,
    get-prune purchase_id (λ (x : Purchase). x.post_id == id) key s.purchases k.purchases,
  )

apply-keeps :
    (key : String) (p : Purchase) (op : Op) (s : Store)
    → ¬ (Deletes p.post_id op)
    → IsKeyed s
    → get key s.purchases ≡ some p
    → get key (apply op s).purchases ≡ some p
unfolding apply Purchases.finalize_purchase
apply-keeps key p (Op.delete_post id) s stays k h = delete_post-keeps key p s id stays k h
apply-keeps key p (Op.create_purchase v) s stays k h = create_purchase-keeps key p s v h
apply-keeps key p (Op.finalize_purchase id v) s stays k h = create_purchase-keeps key p s v h
apply-keeps key p op s stays k h = rw ((frame op s).purchases refl) h

run-keeps :
    (key : String) (p : Purchase) (ops : List Op) (s : Store)
    → All (λ op. ¬ (Deletes p.post_id op)) ops
    → IsKeyed s
    → get key s.purchases ≡ some p
    → get key (run ops s).purchases ≡ some p
unfolding run
run-keeps key p [] s stays k h = h
run-keeps key p (op ∷ ops) s stays k h =
    run-keeps key p ops (apply op s) stays.1 (apply-IsKeyed op s k)
      (apply-keeps key p op s stays.0 k h)

-- In a store whose maps are keyed by their values: the purchase that `getPurchase` finds for a post
-- and a buyer is found unchanged after any calls of the store, as long as none of them deletes the
-- post that the purchase names.
pub purchase_is_permanent :
    (post_id buyer : String) (p : Purchase) (ops : List Op) (s : Store)
    → IsKeyed s
    → get_purchase post_id buyer s ≡ some p
    → All (λ op. ¬ (Deletes p.post_id op)) ops
    → get_purchase post_id buyer (run ops s) ≡ some p
unfolding get_purchase
purchase_is_permanent post_id buyer p ops s k h stays =
    run-keeps (purchase_key post_id buyer) p ops s stays k h

-- No two receipts name one transaction.
abbrev pub PaysOnce : Store → Type 0
PaysOnce s =
    (i j : String) (p q : Purchase)
    → get i s.purchases ≡ some p
    → get j s.purchases ≡ some q
    → p.transaction_id ≡ q.transaction_id
    → i ≡ j

create_purchase-PaysOnce :
    (v : Purchase) (s : Store) → PaysOnce s → PaysOnce (create_purchase v s).1
unfolding create_purchase
create_purchase-PaysOnce v s h i j p q hp hq same =
    elim (Bool-cases
      (any (λ (x : Purchase). x.transaction_id == v.transaction_id) (values s.purchases))) [
        | inl used ↦ ground (arith, h i j p q)
        | inr fresh ↦ ground (
          arith,
          h i j p q,
          eq_iff (purchase_key v.post_id v.buyer) i,
          eq_iff (purchase_key v.post_id v.buyer) j,
          eq_iff p.transaction_id v.transaction_id,
          eq_iff q.transaction_id v.transaction_id,
          get-set (purchase_key v.post_id v.buyer) i v s.purchases,
          get-set (purchase_key v.post_id v.buyer) j v s.purchases,
          any-In (λ (x : Purchase). x.transaction_id == v.transaction_id) p (values s.purchases)
              fresh,
          any-In (λ (x : Purchase). x.transaction_id == v.transaction_id) q (values s.purchases)
              fresh,
          get-In i p s.purchases,
          get-In j q s.purchases,
        )
      ]

delete_post-PaysOnce :
    (id : String) (s : Store) → IsKeyed s → PaysOnce s → PaysOnce (Posts.delete_post id s).1
unfolding Posts.delete_post
delete_post-PaysOnce id s k h i j p q hp hq same = ground (
  arith,
  h i j p q,
  get-prune purchase_id (λ (x : Purchase). x.post_id == id) i s.purchases k.purchases,
  get-prune purchase_id (λ (x : Purchase). x.post_id == id) j s.purchases k.purchases,
)

apply-PaysOnce : (op : Op) (s : Store) → IsKeyed s → PaysOnce s → PaysOnce (apply op s)
unfolding apply Purchases.finalize_purchase
apply-PaysOnce (Op.delete_post id) s k h = delete_post-PaysOnce id s k h
apply-PaysOnce (Op.create_purchase v) s k h = create_purchase-PaysOnce v s h
apply-PaysOnce (Op.finalize_purchase id v) s k h = create_purchase-PaysOnce v s h
apply-PaysOnce op s k h = rw ((frame op s).purchases refl) h

run-PaysOnce : (ops : List Op) (s : Store) → IsKeyed s → PaysOnce s → PaysOnce (run ops s)
unfolding run
run-PaysOnce [] s k h = h
run-PaysOnce (op ∷ ops) s k h =
    run-PaysOnce ops (apply op s) (apply-IsKeyed op s k) (apply-PaysOnce op s k h)

-- After any calls of the store, from the empty one, two purchases of one transaction stand under
-- one key: no transaction pays for two receipts.
pub history-PaysOnce : (ops : List Op) → PaysOnce (run ops empty)
unfolding get
history-PaysOnce ops = run-PaysOnce ops empty empty-IsKeyed (λ i j p q hp hq same. cc)
