-- ===== src/Storage/Segment/Represents.antt =====
-- When a segment holds a list of entries.
use mathlib.Core.Path.{subst}
use kingbus.Common.{
  ℕ, suc, ◌+◌, ◌^◌, ◌≤◌, ◌<◌, ◌≡◌, refl, ap, ◌∙◌, List, [], ◌∷◌, ◌++◌, length, length-append,
  append_assoc, arith,
}
use kingbus.Storage.Env.{Env, Entry}
use kingbus.Storage.MmapFile.Frames.{frame, layout}
use kingbus.Storage.IndexFile.{IndexEntry, RwFile, rw_index, segment_rdwr, marshal}
use kingbus.Storage.Segment.{Segment}

-- The raft indices count up from `i`.
abbrev pub Consecutive : ℕ → List Entry → Type 0
Consecutive i [] = Unit
Consecutive i (e ∷ es) = (e.index ≡ i) × Consecutive (suc i) es

-- The index entries of the records that stand one after another from a position.
abbrev pub index_of : Env → ℕ → List Entry → List IndexEntry
index_of v p [] = []
index_of v p (e ∷ es) =
    record { raft_index = e.index; file_position = p } ∷ index_of v (p + length (frame v e)) es

abbrev pub index_bytes : List IndexEntry → List ℕ
index_bytes [] = []
index_bytes (x ∷ xs) = marshal x ++ index_bytes xs

-- The recorded range; a segment without entries has the range 0, 0.
abbrev pub InRange : ℕ → ℕ → List Entry → Type 0
InRange first last [] = (first ≡ 0) × (last ≡ 0)
InRange first last (e ∷ es) =
    (first ≡ e.index) × (0 < e.index) × (last + 1 ≡ e.index + length (e ∷ es))

-- The files of a segment that is being written hold the entries `es`: the log file is their
-- records and then bytes that are free, and the index has their positions.
pub record Filled (v : Env) (s : Segment) (ix : RwFile) (free : List ℕ) (es : List Entry)
    : Type 0 where
  pub contents : s.log_file.mapped ≡ layout v es ++ free
  pub written : s.log_file.write_position ≡ length (layout v es)
  pub indexed : s.log_index ≡ rw_index ix
  pub entries : ix.entries ≡ index_of v 0 es
  pub index_file : ix.file ++ ix.pending ≡ index_bytes (index_of v 0 es)

-- A segment that is being written holds exactly the entries `es`: so do its files, and its range
-- is theirs.
pub record Holds (v : Env) (s : Segment) (ix : RwFile) (free : List ℕ) (es : List Entry)
    : Type 0 where
  pub filled : Filled v s ix free es
  pub open filled use *
  pub writable : s.status ≡ segment_rdwr
  pub numbered : Consecutive s.first_index es
  pub range : InRange s.first_index s.last_index es
  pub bounded : s.last_index + 1 < 2 ^ 64
  pub addressable : length (layout v es ++ free) ≤ 2 ^ 32
  pub sized : s.log_file.max_bytes ≡ length (layout v es ++ free)

module _ (v : Env) where
  pub index_of-append :
      (p : ℕ) (es fs : List Entry)
      → index_of v p (es ++ fs) ≡ index_of v p es ++ index_of v (p + length (layout v es)) fs
  index_of-append p [] fs = ap (λ k. index_of v k fs) here
    where
      here : p ≡ p + length (layout v [])
      here = unfold layout in omega arith
  index_of-append p (e ∷ es) fs =
      ap (λ t. record { raft_index = e.index; file_position = p } ∷ t)
        (index_of-append (p + length (frame v e)) es fs
          ∙ ap (λ k. index_of v (p + length (frame v e)) es ++ index_of v k fs) there)
    where
      there : p + length (frame v e) + length (layout v es) ≡ p + length (layout v (e ∷ es))
      there = unfold layout in omega (arith, length-append (frame v e) (layout v es))

pub index_bytes-append :
    (xs ys : List IndexEntry) → index_bytes (xs ++ ys) ≡ index_bytes xs ++ index_bytes ys
index_bytes-append [] ys = refl
index_bytes-append (x ∷ xs) ys = rw (index_bytes-append xs ys, append_assoc)

pub Consecutive-append :
    (i : ℕ) (es fs : List Entry)
    → Consecutive i es
    → Consecutive (i + length es) fs
    → Consecutive i (es ++ fs)
Consecutive-append i [] fs h k = subst (λ n. Consecutive n fs) (omega arith) k
Consecutive-append i (e ∷ es) fs h k =
    (h.0, Consecutive-append (suc i) es fs h.1 (subst (λ n. Consecutive n fs) (omega arith) k))

pub Consecutive-suffix :
    (i : ℕ) (es fs : List Entry) → Consecutive i (es ++ fs) → Consecutive (i + length es) fs
Consecutive-suffix i [] fs h = subst (λ n. Consecutive n fs) (omega arith) h
Consecutive-suffix i (e ∷ es) fs h =
    subst (λ n. Consecutive n fs) (omega arith) (Consecutive-suffix (suc i) es fs h.1)

pub Consecutive-prefix : (i : ℕ) (es fs : List Entry) → Consecutive i (es ++ fs) → Consecutive i es
Consecutive-prefix i [] fs h = tt
Consecutive-prefix i (e ∷ es) fs h = (h.0, Consecutive-prefix (suc i) es fs h.1)

-- What the files hold does not turn on the recorded range.
pub Filled-ranged :
    (v : Env) (s : Segment) (ix : RwFile) (free : List ℕ) (es : List Entry) (a b : ℕ)
    → Filled v s ix free es
    → Filled v (record s { first_index = a; last_index = b }) ix free es
Filled-ranged v s ix free es a b f = record {
  contents = f.contents;
  written = f.written;
  indexed = f.indexed;
  entries = f.entries;
  index_file = f.index_file;
}
