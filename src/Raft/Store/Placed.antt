-- ===== src/Raft/Store/Placed.antt =====
-- A log in which one more entry of crates/raft-engine/src/store.rs takes the place of its index.
use Prim.Native.Nat.Ordering.{lt, eq, gt}
use distributed_acid_kv_stor.Common.{
  ℕ, ◌<◌, ◌≡◌, ◌∙◌, refl, sym, ap, subst, List, [], ◌∷◌, ◌++◌, All, append_assoc, append-nil,
  compare, Ordering, arith,
}
use distributed_acid_kv_stor.Raft.Store.{Eraftpb}

module _ (pb : Eraftpb) where
  -- An entry put at its index.
  abbrev pub placed : pb.Entry → List pb.Entry → List pb.Entry
  placed e [] = e ∷ []
  placed e (x ∷ xs) =
      let rest = placed e xs in
      elim (compare (pb.get_index e) (pb.get_index x)) [
        | lt ↦ e ∷ x ∷ xs
        | eq ↦ e ∷ xs
        | gt ↦ x ∷ rest
      ]

  abbrev pub placed_all : List pb.Entry → List pb.Entry → List pb.Entry
  placed_all [] xs = xs
  placed_all (n ∷ ns) xs = placed_all ns (placed n xs)

  pub placed_at :
      (e x : pb.Entry) (xs : List pb.Entry) (o : Ordering)
      → compare (pb.get_index e) (pb.get_index x) ≡ o
      → placed e (x ∷ xs) ≡ elim o [ lt ↦ e ∷ x ∷ xs | eq ↦ e ∷ xs | gt ↦ x ∷ placed e xs ]
  placed_at e x xs o h = rw (placed, h) refl

  All-middle :
      (P : pb.Entry → Type 0) (xs : List pb.Entry) (e : pb.Entry) (ns : List pb.Entry)
      → All P (xs ++ e ∷ ns)
      → P e
  All-middle P [] e ns a = a.0
  All-middle P (x ∷ xs) e ns a = All-middle P xs e ns a.1

  gt_of_lt : (i j : ℕ) → i < j → compare j i ≡ gt
  gt_of_lt i j h = ground arith

  pub placed_below :
      (e : pb.Entry) (xs : List pb.Entry)
      → All (λ x. pb.get_index e < pb.get_index x) xs
      → placed e xs ≡ e ∷ xs
  placed_below e [] a = refl
  placed_below e (x ∷ xs) a = ground arith

  -- Indexes ascend.
  abbrev pub Ascends : List pb.Entry → Type 0
  Ascends [] = Unit {0}
  Ascends (x ∷ xs) = All (λ y. pb.get_index x < pb.get_index y) xs × Ascends xs

  placed_end :
      (e : pb.Entry) (xs ns : List pb.Entry) → Ascends (xs ++ e ∷ ns) → placed e xs ≡ xs ++ e ∷ []
  placed_end e [] ns up = refl
  placed_end e (x ∷ xs) ns up =
      placed_at e x xs gt (
        gt_of_lt (pb.get_index x) (pb.get_index e)
          (All-middle (λ y. pb.get_index x < pb.get_index y) xs e ns up.0))
      ∙ ap (λ t. x ∷ t) (placed_end e xs ns up.1)

  pub placed_all_end : (ns xs : List pb.Entry) → Ascends (xs ++ ns) → placed_all ns xs ≡ xs ++ ns
  placed_all_end [] xs up = sym (append-nil xs)
  placed_all_end (n ∷ ns) xs up =
      ap (placed_all ns) (placed_end n xs ns up)
      ∙ placed_all_end ns (xs ++ n ∷ []) (subst Ascends (sym (append_assoc xs (n ∷ []) ns)) up)
      ∙ append_assoc xs (n ∷ []) ns
