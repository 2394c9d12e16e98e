-- ===== src/Concrete/Database.antt =====
-- A database that is the list of the writes made to it.
use mathlib.Core.Logic.{ite}
use mathlib.Core.Path.{subst}
use kingbus.Common.{
  ℕ, ◌<◌, ◌≡◌, refl, sym, ap, ◌∙◌, some, List, [], ◌∷◌, ◌++◌, ltb, ◌==◌, arith, Bool-cases, inl,
  inr, erase, none, Option, Result, ok,
}
use kingbus.Store.{Prefix, Prefix-discrete, StoreKey}
use kingbus.Bolt.{
  Bolt, IsBolt, place, scan_put, scan_delete, Write, put_value, delete_key, value_after, scan_after,
  scan_write, insert_sorted, Above, Ascending,
}

unfoldable pub memory_bolt : Bolt (List Write)
memory_bolt = record {
  value = λ d k. value_after k d (ok none);
  scan = λ d p. ok (scan_after p d []);
  update = λ ws d. some (d ++ ws);
}

value_after-append :
    (k : StoreKey) (d ws : List Write) (r : Result (Option (List ℕ)))
    → value_after k (d ++ ws) r ≡ value_after k ws (value_after k d r)
value_after-append k [] ws r = refl
value_after-append k (put_value j v ∷ d) ws r = value_after-append k d ws _
value_after-append k (delete_key j ∷ d) ws r = value_after-append k d ws _

scan_after-append :
    (p : Prefix) (d ws : List Write) (l : List (ℕ × List ℕ))
    → scan_after p (d ++ ws) l ≡ scan_after p ws (scan_after p d l)
scan_after-append p [] ws l = refl
scan_after-append p (w ∷ d) ws l = scan_after-append p d ws (scan_write p w l)

Above-insert :
    (i j : ℕ) (v : List ℕ) (l : List (ℕ × List ℕ))
    → i < j
    → Above i l
    → Above i (insert_sorted j v l)
Above-insert i j v [] lt a = (lt, tt)
Above-insert i j v ((k, w) ∷ l) lt (lt', a) = elim (Bool-cases (ltb j k)) [
  | inl before ↦ rw before (lt, (lt', a))
  | inr after ↦ elim (Bool-cases (j == k)) [
    | inl same ↦ rw (after, same) (lt, a)
    | inr other ↦ rw (after, other) (lt', Above-insert i j v l lt a)
  ]
]

Above-trans : (i j : ℕ) (l : List (ℕ × List ℕ)) → i < j → Above j l → Above i l
Above-trans i j [] lt a = tt
Above-trans i j ((k, w) ∷ l) lt (lt', a) = (omega (arith, lt, lt'), Above-trans i j l lt a)

insert-Ascending :
    (i : ℕ) (v : List ℕ) (l : List (ℕ × List ℕ)) → Ascending l → Ascending (insert_sorted i v l)
insert-Ascending i v [] a = (tt, tt)
insert-Ascending i v ((j, w) ∷ l) (above, a) = elim (Bool-cases (ltb i j)) [
  | inl before ↦
      let lt : i < j = ground (arith, before) in
      rw before ((lt, Above-trans i j l lt above), (above, a))
  | inr after ↦ elim (Bool-cases (i == j)) [
    | inl same ↦ let at : j ≡ i = ground (arith, same) in rw (after, same) (rw (sym at) above, a)
    | inr other ↦
        let lt : j < i = ground (arith, after, other) in
        rw (after, other) (Above-insert j i v l lt above, insert-Ascending i v l a)
  ]
]

Above-erase : (i j : ℕ) (l : List (ℕ × List ℕ)) → Above i l → Above i (erase j l)
Above-erase i j [] a = tt
Above-erase i j ((k, w) ∷ l) (lt, a) = elim (Bool-cases (k == j)) [
  | inl same ↦ rw same (Above-erase i j l a)
  | inr other ↦ rw other (lt, Above-erase i j l a)
]

erase-Ascending : (j : ℕ) (l : List (ℕ × List ℕ)) → Ascending l → Ascending (erase j l)
erase-Ascending j [] a = tt
erase-Ascending j ((k, w) ∷ l) (above, a) = elim (Bool-cases (k == j)) [
  | inl same ↦ rw same (erase-Ascending j l a)
  | inr other ↦ rw other (Above-erase k j l above, erase-Ascending j l a)
]

ite_keeps :
    {P : Type 0} (d : Dec P) (l m : List (ℕ × List ℕ))
    → Ascending l
    → Ascending m
    → Ascending (ite d l m)
ite_keeps (yes p) l m a b = a
ite_keeps (no n) l m a b = b

put-Ascending :
    (p : Prefix) (q : Option (Prefix × ℕ)) (v : List ℕ) (l : List (ℕ × List ℕ))
    → Ascending l
    → Ascending (scan_put p q v l)
put-Ascending p none v l a = a
put-Ascending p (some (q, i)) v l a =
    ite_keeps (Prefix-discrete q p) (insert_sorted i v l) l (insert-Ascending i v l a) a

delete-Ascending :
    (p : Prefix) (q : Option (Prefix × ℕ)) (l : List (ℕ × List ℕ))
    → Ascending l
    → Ascending (scan_delete p q l)
delete-Ascending p none l a = a
delete-Ascending p (some (q, i)) l a =
    ite_keeps (Prefix-discrete q p) (erase i l) l (erase-Ascending i l a) a

scan-Ascending :
    (p : Prefix) (ws : List Write) (l : List (ℕ × List ℕ))
    → Ascending l
    → Ascending (scan_after p ws l)
scan-Ascending p [] l a = a
scan-Ascending p (put_value k v ∷ ws) l a =
    scan-Ascending p ws (scan_put p (place k) v l) (put-Ascending p (place k) v l a)
scan-Ascending p (delete_key k ∷ ws) l a =
    scan-Ascending p ws (scan_delete p (place k) l) (delete-Ascending p (place k) l a)

some_inj : (d e : List Write) → some d ≡ some e → d ≡ e
some_inj d e h = cc

ok_inj : (l m : List (ℕ × List ℕ)) → ok l ≡ ok m → l ≡ m
ok_inj l m h = cc

pub memory_bolt-IsBolt : IsBolt memory_bolt
unfolding memory_bolt
memory_bolt-IsBolt = record {
  value-update = λ k ws d e h.
      ap (λ x. value_after k x (ok none)) (sym (some_inj (d ++ ws) e h))
      ∙ value_after-append k d ws (ok none);
  scan-update = λ p ws d e l h s. ap ok (
      ap (λ x. scan_after p x []) (sym (some_inj (d ++ ws) e h))
      ∙ (scan_after-append p d ws [] ∙ ap (scan_after p ws) (ok_inj (scan_after p d []) l s)));
  scan-Ascending =
      λ p d l s. subst Ascending (ok_inj (scan_after p d []) l s) (scan-Ascending p d [] tt);
}
