-- ===== src/Frame/Io/Laws.antt =====
-- What the raw reads and writes do while they stay inside the buffer.
use redpine_rs.Common.{
  ◌>>=◌, ap, Run, ℕ, ◌+◌, ◌-◌, ◌≤◌, ◌≡◌, refl, ◌∙◌, arith, List, [], ◌∷◌, ◌++◌, append-nil,
  append_assoc, length, drop, length-drop, drop-drop, length-append, done,
}
use redpine_rs.Frame.Io.{
  Reader, read_u8, read_u16, read_u32, read_u64, Writer, store, write_slice, be_bytes_u16,
  be_bytes_u32, be_bytes_u64, write_u8, write_u16, write_u32, write_u64,
}

-- The bytes stored are those now behind the pointer, and as many have gone from before it.
unfoldable pub wrote : List ℕ → Writer → Writer
wrote bytes wr = record {
  behind = wr.behind ++ bytes;
  ahead = drop (length bytes) wr.ahead;
  bytes_written = wr.bytes_written + length bytes;
}

store_lem :
    (bytes behind ahead : List ℕ)
    → length bytes ≤ length ahead
    → store bytes behind ahead ≡ done (behind ++ bytes, drop (length bytes) ahead)
unfolding store
store_lem [] behind ahead h = rw append-nil
store_lem (b ∷ bs) behind [] h = absurd (omega arith)
store_lem (b ∷ bs) behind (a ∷ ahead) h =
    rw (store_lem bs (behind ++ (b ∷ [])) ahead (omega arith), append_assoc)

pub write_slice_lem :
    (bytes : List ℕ) (wr : Writer)
    → length bytes ≤ length wr.ahead
    → write_slice bytes wr ≡ done (wrote bytes wr)
unfolding write_slice wrote
write_slice_lem bytes wr h = rw (store_lem bytes wr.behind wr.ahead h)

pub length-wrote :
    (bytes : List ℕ) (wr : Writer) → length (wrote bytes wr).ahead ≡ length wr.ahead - length bytes
unfolding wrote
length-wrote bytes wr = length-drop (length bytes) wr.ahead

pub wrote-wrote : (xs ys : List ℕ) (wr : Writer) → wrote ys (wrote xs wr) ≡ wrote (xs ++ ys) wr
unfolding wrote
wrote-wrote xs ys wr = grind (
  arith,
  drop-drop (length ys) (length xs) wr.ahead,
  append_assoc wr.behind xs ys,
  length-append xs ys,
)

-- `n` bytes further on.
unfoldable pub advance : ℕ → Reader → Reader
advance n rd = record { ptr = drop n rd.ptr; bytes_read = rd.bytes_read + n }

pub advance-advance : (m n : ℕ) (rd : Reader) → advance m (advance n rd) ≡ advance (n + m) rd
unfolding advance
advance-advance m n rd = grind (arith, drop-drop m n rd.ptr)

pub length-advance : (n : ℕ) (rd : Reader) → length (advance n rd).ptr ≡ length rd.ptr - n
unfolding advance
length-advance n rd = length-drop n rd.ptr

-- With enough bytes ahead a read returns some number and moves past the bytes.
abbrev pub at : List ℕ → ℕ → Reader
at l n = record { ptr = l; bytes_read = n }

u8_total_at :
    (l : List ℕ) (n : ℕ)
    → 1 ≤ length l
    → (v : ℕ) × (read_u8 (at l n) ≡ done (v, advance 1 (at l n)))
unfolding read_u8 advance
u8_total_at (a ∷ l) n h = (_, refl)
u8_total_at _ n h = absurd (omega arith)

pub read_u8_total :
    (rd : Reader) → 1 ≤ length rd.ptr → (v : ℕ) × (read_u8 rd ≡ done (v, advance 1 rd))
read_u8_total rd h = u8_total_at rd.ptr rd.bytes_read h

u16_total_at :
    (l : List ℕ) (n : ℕ)
    → 2 ≤ length l
    → (v : ℕ) × (read_u16 (at l n) ≡ done (v, advance 2 (at l n)))
unfolding read_u16 advance
u16_total_at (a ∷ b ∷ l) n h = (_, refl)
u16_total_at _ n h = absurd (omega arith)

pub read_u16_total :
    (rd : Reader) → 2 ≤ length rd.ptr → (v : ℕ) × (read_u16 rd ≡ done (v, advance 2 rd))
read_u16_total rd h = u16_total_at rd.ptr rd.bytes_read h

u32_total_at :
    (l : List ℕ) (n : ℕ)
    → 4 ≤ length l
    → (v : ℕ) × (read_u32 (at l n) ≡ done (v, advance 4 (at l n)))
unfolding read_u32 advance
u32_total_at (a ∷ b ∷ c ∷ d ∷ l) n h = (_, refl)
u32_total_at _ n h = absurd (omega arith)

pub read_u32_total :
    (rd : Reader) → 4 ≤ length rd.ptr → (v : ℕ) × (read_u32 rd ≡ done (v, advance 4 rd))
read_u32_total rd h = u32_total_at rd.ptr rd.bytes_read h

u64_total_at :
    (l : List ℕ) (n : ℕ)
    → 8 ≤ length l
    → (v : ℕ) × (read_u64 (at l n) ≡ done (v, advance 8 (at l n)))
unfolding read_u64 advance
u64_total_at (a ∷ b ∷ c ∷ d ∷ e ∷ f ∷ g ∷ k ∷ l) n h = (_, refl)
u64_total_at _ n h = absurd (omega arith)

pub read_u64_total :
    (rd : Reader) → 8 ≤ length rd.ptr → (v : ℕ) × (read_u64 rd ≡ done (v, advance 8 rd))
read_u64_total rd h = u64_total_at rd.ptr rd.bytes_read h

-- `f` writes `bytes` wherever there is room for them.
abbrev pub Writes : (Writer → Run Writer) → List ℕ → Type 0
Writes f bytes = (wr : Writer) → length bytes ≤ length wr.ahead → f wr ≡ done (wrote bytes wr)

pub write_u8_lem : (v : ℕ) → Writes (write_u8 v) (v ∷ [])
unfolding write_u8
write_u8_lem v wr h = write_slice_lem (v ∷ []) wr h

pub write_u16_lem : (v : ℕ) → Writes (write_u16 v) (be_bytes_u16 v)
unfolding write_u16
write_u16_lem v wr h = write_slice_lem (be_bytes_u16 v) wr h

pub write_u32_lem : (v : ℕ) → Writes (write_u32 v) (be_bytes_u32 v)
unfolding write_u32
write_u32_lem v wr h = write_slice_lem (be_bytes_u32 v) wr h

pub write_u64_lem : (v : ℕ) → Writes (write_u64 v) (be_bytes_u64 v)
unfolding write_u64
write_u64_lem v wr h = write_slice_lem (be_bytes_u64 v) wr h

pub Writes-then :
    {f g : Writer → Run Writer} (xs ys : List ℕ)
    → Writes f xs
    → Writes g ys
    → Writes (λ wr. f wr >>= g) (xs ++ ys)
Writes-then xs ys first second wr h =
    let room : length xs + length ys ≤ length wr.ahead = omega (arith, length-append xs ys) in
    rw (first wr (omega arith))
      (second (wrote xs wr) (omega (arith, length-wrote xs wr)) ∙ ap done (wrote-wrote xs ys wr))

-- `r` takes `n` bytes wherever there are as many.
abbrev pub Takes : {A : Type 0} → (Reader → Run (A × Reader)) → ℕ → Type 0
Takes {A} r n = (rd : Reader) → n ≤ length rd.ptr → (a : A) × (r rd ≡ done (a, advance n rd))

pub Takes-then :
    {A B : Type 0} {r : Reader → Run (A × Reader)} (k : A × Reader → Run (B × Reader)) (m n : ℕ)
    → Takes r m
    → ((a : A) → Takes (λ rd. k (a, rd)) n)
    → Takes (λ rd. r rd >>= k) (m + n)
Takes-then k m n first second rd h =
    let (a, e) = first rd (omega arith) in
    let (b, e') = second a (advance m rd) (omega (arith, length-advance m rd)) in
    (b, rw e (e' ∙ ap (λ rd'. done (b, rd')) (advance-advance n m rd)))

pub Takes-done : {A : Type 0} (a : A) → Takes (λ rd. done (a, rd)) 0
unfolding advance
Takes-done a rd h = (a, ap (λ n. done (a, record { ptr = rd.ptr; bytes_read = n })) (omega arith))

-- Two counts of the bytes read that agree.
pub done_after :
    {A : Type 0} (a : A) (rest : List ℕ) {m n : ℕ}
    → m ≡ n
    → ◌≡◌ {A = Run (A × Reader)} (done (a, at rest m)) (done (a, at rest n))
done_after a rest e = ap (λ k. done (a, at rest k)) e
