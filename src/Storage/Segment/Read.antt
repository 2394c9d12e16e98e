-- ===== src/Storage/Segment/Read.antt =====
-- Reading entries from a segment.
use mathlib.Core.Path.{subst}
use kingbus.Common.{
  ℕ, zero, suc, ◌+◌, ◌-◌, ◌%◌, ◌^◌, ◌≤◌, ◌<◌, ◌≡◌, refl, sym, ap, ◌∙◌, true, false, List, [], ◌∷◌,
  ◌++◌, append_assoc, append-nil, arith, inl, inr, Bool-cases, ==_iff, ok, length, length-append,
  ltb, ◌==◌, ltb→lt, ==_ne, if◌then◌else◌,
}
use kingbus.Storage.Env.{Env, Entry, IsCodec}
use kingbus.Storage.MmapFile.Frames.{
  body, frame, layout, length-frame, layout-append, length-le-layout, read_frame,
}
use kingbus.Storage.IndexFile.{get_raft_entry_position}
use kingbus.Storage.Segment.{Segment, below_zero, is_closed, read_loop, read_raft_entries}
use kingbus.Storage.Segment.Represents.{Consecutive, Consecutive-suffix, Consecutive-prefix}

-- The accumulated size, a uint64.
abbrev pub add_size : Env → ℕ → Entry → ℕ
add_size v size e = (size + length (v.marshal_entry e)) % 2 ^ 64

-- What a reader takes of the entries that it wants: all of them up to and with the one whose size
-- passes the limit; and the size taken.
unfoldable pub within : Env → ℕ → ℕ → List Entry → List Entry × ℕ
within v limit size [] = ([], size)
within v limit size (e ∷ []) = (e ∷ [], add_size v size e)
within v limit size (e ∷ f ∷ es) =
    let rest = within v limit (add_size v size e) (f ∷ es) in
    if ltb limit (add_size v size e) then (e ∷ [], add_size v size e) else (e ∷ rest.0, rest.1)

module _ (v : Env) where
  read_loop_lem :
      (s : Segment) (last limit fuel size i : ℕ) (pre post : List ℕ) (e : Entry) (es : List Entry)
      → IsCodec v
      → s.log_file.mapped ≡ pre ++ (layout v (e ∷ es) ++ post)
      → length (layout v (e ∷ es)) ≤ 2 ^ 32
      → Consecutive i (e ∷ es)
      → last + 1 ≡ i + length (e ∷ es)
      → last ≤ s.last_index
      → length (e ∷ es) ≤ fuel
      → read_loop v s last limit fuel (length pre) size ≡ ok (within v limit size (e ∷ es))
  unfolding read_loop within layout
  read_loop_lem s last limit zero size i pre post e es codec m a c l b h = absurd (omega arith)
  read_loop_lem s last limit (suc fuel) size i pre post e [] codec m a c l b h =
      rw (read_frame v s.log_file pre post e codec (m ∙ rw append-nil) small)
        (elim (Bool-cases (ltb limit (add_size v size e))) [
          | inl over ↦ rw over
          | inr under ↦ rw (under, at_last)
        ])
    where
      small : length (body v e) < 2 ^ 32
      small = omega (arith, length-frame v e, length-append (frame v e) [])

      at_last : (e.index == last) ≡ true
      at_last = (==_iff e.index last).1 (omega arith)
  read_loop_lem s last limit (suc fuel) size i pre post e (f ∷ es) codec m a c l b h =
      let rest : read_loop v s last limit fuel (length pre + length (frame v e)) (add_size v size e)
          ≡ ok (within v limit (add_size v size e) (f ∷ es)) =
        subst
          (λ p.
            read_loop v s last limit fuel p (add_size v size e)
            ≡ ok (within v limit (add_size v size e) (f ∷ es)))
          (length-append pre (frame v e))
          (read_loop_lem s last limit fuel (add_size v size e) (suc i) (pre ++ frame v e) post f es
            codec
            (m
              ∙ ap (λ t. pre ++ t) (append_assoc (frame v e) (layout v (f ∷ es)) post)
              ∙ sym (append_assoc pre (frame v e) (layout v (f ∷ es) ++ post)))
            (omega (arith, parts)) c.1 (omega arith) b (omega arith)) in
      rw
        (read_frame v s.log_file pre (layout v (f ∷ es) ++ post) e codec (m ∙ rw append_assoc)
          small)
        (elim (Bool-cases (ltb limit (add_size v size e))) [
          | inl over ↦ rw over
          | inr under ↦ rw (under, before_last, before_end, rest)
        ])
    where
      parts : length (layout v (e ∷ f ∷ es)) ≡ length (frame v e) + length (layout v (f ∷ es))
      parts = length-append (frame v e) (layout v (f ∷ es))

      small : length (body v e) < 2 ^ 32
      small = omega (arith, length-frame v e, parts)

      before_last : (e.index == last) ≡ false
      before_last = ==_ne e.index last (omega arith)

      before_end : (e.index == s.last_index) ≡ false
      before_end = ==_ne e.index s.last_index (omega arith)

-- A segment from which the entries `es` can be read: its file is their records, its range is
-- theirs, and its index has the position of each.
pub record Readable (v : Env) (s : Segment) (free : List ℕ) (es : List Entry) : Type 0 where
  pub open_status : is_closed s.status ≡ false
  pub contents : s.log_file.mapped ≡ layout v es ++ free
  pub numbered : Consecutive s.first_index es
  pub range_end : s.last_index + 1 ≡ s.first_index + length es
  pub addressable : length (layout v es) ≤ 2 ^ 32
  pub located :
      (pre : List Entry) (e : Entry) (post : List Entry)
      → es ≡ pre ++ e ∷ post
      → get_raft_entry_position s.log_index e.index s.first_index s.status
        ≡ ok (length (layout v pre))

in_order : (first n : ℕ) → n < 2 ^ 32 → below_zero first (first + n) ≡ false
unfolding below_zero
in_order first n lt = ground (arith, lt)

module _ (v : Env) where
  -- From a readable segment, where the codecs are round trips: reading from the first of the
  -- entries `e ∷ w` to the last of them gives what the size limit takes of them, and what is left
  -- of the limit.
  pub read_raft_entries_lem :
      (s : Segment) (free : List ℕ) (pre w post : List Entry) (e : Entry) (limit : ℕ)
      → IsCodec v
      → Readable v s free (pre ++ (e ∷ w ++ post))
      → read_raft_entries v s e.index (e.index + length w) limit
        ≡ ok ((within v limit 0 (e ∷ w)).0, limit - (within v limit 0 (e ∷ w)).1)
  unfolding read_raft_entries
  read_raft_entries_lem s free pre w post e limit codec r =
      rw
        (
          r.open_status,
          in_order e.index (length w)
              (omega (arith, r.addressable, sizes, all, length-le-layout v (e ∷ w))),
          r.located pre e (w ++ post) refl,
          read_loop_lem v s (e.index + length w) limit (suc (length s.log_file.mapped)) 0 e.index
              (layout v pre) (layout v post ++ free) e w codec bytes
              (omega (arith, r.addressable, sizes, all)) run (omega arith)
              (omega (arith, r.range_end, counts, tail.0))
              (omega (
                arith,
                length-le-layout v (e ∷ w),
                sizes,
                ap length bytes,
                length-append (layout v pre) (layout v (e ∷ w) ++ (layout v post ++ free)),
                length-append (layout v (e ∷ w)) (layout v post ++ free),
              )),
        )
        (elim (Bool-cases (ltb limit (within v limit 0 (e ∷ w)).1)) [
          | inl over ↦ rw over (
              ap (λ (k : ℕ). ok ((within v limit 0 (e ∷ w)).0, k)) (omega (arith, ltb→lt _ _ over)))
          | inr under ↦ rw under
        ])
    where
      tail : Consecutive (s.first_index + length pre) (e ∷ w ++ post)
      tail = Consecutive-suffix s.first_index pre (e ∷ w ++ post) r.numbered

      run : Consecutive e.index (e ∷ w)
      run =
          subst (λ n. Consecutive n (e ∷ w)) (sym tail.0)
            (Consecutive-prefix (s.first_index + length pre) (e ∷ w) post tail)

      sizes : length (layout v (e ∷ w ++ post)) ≡ length (layout v (e ∷ w)) + length (layout v post)
      sizes =
          ap length (layout-append v (e ∷ w) post)
          ∙ length-append (layout v (e ∷ w)) (layout v post)

      all :
          length (layout v (pre ++ (e ∷ w ++ post)))
          ≡ length (layout v pre) + length (layout v (e ∷ w ++ post))
      all =
          ap length (layout-append v pre (e ∷ w ++ post))
          ∙ length-append (layout v pre) (layout v (e ∷ w ++ post))

      counts : length (pre ++ (e ∷ w ++ post)) ≡ length pre + suc (length w + length post)
      counts = omega (arith, length-append pre (e ∷ w ++ post), length-append w post)

      bytes : s.log_file.mapped ≡ layout v pre ++ (layout v (e ∷ w) ++ (layout v post ++ free))
      bytes =
          r.contents
          ∙ rw (layout-append v pre (e ∷ w ++ post), layout-append v (e ∷ w) post)
              (append_assoc (layout v pre) (layout v (e ∷ w) ++ layout v post) free
                ∙ ap (λ t. layout v pre ++ t)
                    (append_assoc (layout v (e ∷ w)) (layout v post) free))
