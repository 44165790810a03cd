-- ===== src/Driver/Replay/Traces.antt =====
-- The traces that mdriver.c may replay, and the payload that they ask for, without the allocator.
use s_system_programmin.Common.{
  ℕ, ◌+◌, ◌%◌, ◌^◌, ◌<◌, ◌≡◌, true, false, List, [], ◌∷◌, has, erase, ltb, if◌then◌else◌,
}
use s_system_programmin.Driver.Replay.{TraceOp, alloc, realloc, free, set}

-- A request that the driver makes
abbrev pub Request : (size : ℕ) → Type 0
Request size = (0 < size) × (size + 15 < 2 ^ 32)

-- A trace that may be replayed when `ids` are held: a new id is not held, a moved or released one is,
-- and sizes are positive and at least 16 below 2 ^ 32.
abbrev pub WellFormed : (ids : List ℕ) → List TraceOp → Type 0
WellFormed ids [] = Unit {0}
WellFormed ids (alloc i size ∷ ops) = (has i ids ≡ false) × Request size × WellFormed (i ∷ ids) ops
WellFormed ids (realloc i size ∷ ops) =
    (has i ids ≡ true) × Request size × WellFormed (i ∷ erase i ids) ops
WellFormed ids (free i ∷ ops) = (has i ids ≡ true) × WellFormed (erase i ids) ops

-- The low byte of every id that is moved is a positive `char`.
abbrev pub LowMoves : List TraceOp → Type 0
LowMoves [] = Unit {0}
LowMoves (alloc i size ∷ ops) = LowMoves ops
LowMoves (realloc i size ∷ ops) = (i % 2 ^ 8 < 128) × LowMoves ops
LowMoves (free i ∷ ops) = LowMoves ops

-- The ids that are held behind an operation, and at the end of a trace
abbrev pub held_after : (ids : List ℕ) → TraceOp → List ℕ
held_after ids (alloc i size) = i ∷ ids
held_after ids (realloc i size) = i ∷ erase i ids
held_after ids (free i) = erase i ids

abbrev pub held : (ids : List ℕ) → List TraceOp → List ℕ
held ids [] = ids
held ids (op ∷ ops) = held (held_after ids op) ops

-- The size that an id was last requested with
abbrev pub sizes_after : (sizes : ℕ → ℕ) → TraceOp → ℕ → ℕ
sizes_after sizes (alloc i size) = set i size sizes
sizes_after sizes (realloc i size) = set i size sizes
sizes_after sizes (free i) = sizes

-- The payload of the ids that are held
abbrev pub payload : (sizes : ℕ → ℕ) → List ℕ → ℕ
payload sizes [] = 0
payload sizes (i ∷ ids) = sizes i + payload sizes ids

-- The largest payload at any time of a trace
abbrev pub peak : (sizes : ℕ → ℕ) → (ids : List ℕ) → List TraceOp → ℕ
peak sizes ids [] = payload sizes ids
peak sizes ids (op ∷ ops) =
    let now = payload sizes ids in
    let later = peak (sizes_after sizes op) (held_after ids op) ops in
    if ltb now later then later else now
