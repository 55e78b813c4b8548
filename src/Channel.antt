-- ===== src/Channel.antt =====
-- engine/shm_channel.py: the single-slot channel over shared memory. `Shm` is the shared segment,
-- the three counters of the header (unsigned 64-bit, written out as `% 2 ^ 64`) and the bytes after
-- it. A writer and a reader that opened the same name work on the same segment; here each call of
-- `write` and `read_if_new` is one step.
pub mod Latest
use comfyui_engine.Prelude.{
  ℕ, zero, suc, ◌+◌, ◌%◌, ◌^◌, Option, none, some, List, [], ◌∷◌, ◌++◌, length, take, drop, ltb,
  ◌==◌, if◌then◌else◌,
}

pub record Shm : Type 0 where
  pub write_seq : ℕ
  pub read_seq : ℕ
  pub data_len : ℕ
  pub bytes : List ℕ

abbrev pub seq_mod : ℕ
seq_mod = 2 ^ 64

abbrev zeros : ℕ → List ℕ
zeros zero = []
zeros (suc n) = 0 ∷ zeros n

-- `ShmChannel.create`: a fresh segment, its counters set to 0. `size` is the data size.
unfoldable pub create : ℕ → Shm
create size = record { write_seq = 0; read_seq = 0; data_len = 0; bytes = zeros size }

-- `write` raises `ValueError` (`none`) for a payload above the data size, and in the assignment to
-- the slice for one that is longer than the bytes of the segment, which `open` may be given a data
-- size above.
unfoldable pub write : ℕ → List ℕ → Shm → Option Shm
write data_size payload s =
    if ltb data_size (length payload)
    then none
    else if ltb (length s.bytes) (length payload)
    then none
    else some (record {
      write_seq = (s.write_seq + 1) % seq_mod;
      read_seq = s.read_seq;
      data_len = length payload;
      bytes = payload ++ drop (length payload) s.bytes;
    })

pub read_if_new : Shm → Option (List ℕ) × Shm
read_if_new s =
    if s.write_seq == s.read_seq
    then (none, s)
    else (some (take s.data_len s.bytes), record s { read_seq = s.write_seq })

-- Writes one after the other, until one raises.
pub write_all : ℕ → List (List ℕ) → Shm → Option Shm
unfolding write
write_all data_size [] s = some s
write_all data_size (payload ∷ payloads) s = elim (write data_size payload s) [
  | none ↦ none
  | some s' ↦ write_all data_size payloads s'
]

-- What the writer may do between two polls; a write that raises changes nothing.
write_maybe : ℕ → Option (List ℕ) → Shm → Shm
unfolding write
write_maybe data_size none s = s
write_maybe data_size (some payload) s = elim (write data_size payload s) [
  | none ↦ s
  | some written ↦ written
]

-- `if d is not None: return d`
abbrev pub or_later : Option (List ℕ) → Option (List ℕ) → Option (List ℕ)
or_later none later = later
or_later (some payload) later = some payload

-- `aread`: polls until there is something new. Before each poll the writer may have written; the
-- list says what, poll by poll. `none` when the polls of the list are used up.
pub aread : ℕ → List (Option (List ℕ)) → Shm → Option (List ℕ)
unfolding write_maybe read_if_new
aread data_size [] s = none
aread data_size (w ∷ polls) s =
    let r = read_if_new (write_maybe data_size w s) in or_later r.0 (aread data_size polls r.1)
