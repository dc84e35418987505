-- ===== src/BufferReader/RoundTrip.antt =====
-- What a `BufferWriter` wrote, a `BufferReader` reads; and what the operators without a test allow.
use jam_client_prototype.Prelude.{
  ℕ, ◌+◌, ◌-◌, ◌%◌, ◌≤◌, ◌<◌, ◌≡◌, refl, sym, ap, ◌∙◌, true, Option, none, some, List, [], ◌∷◌,
  ◌++◌, map, arith, if◌then◌else◌, length, take, drop, length-take, take-le, take-length,
  drop-length, drop-take, take-take, overwrite, length-overwrite,
}
use jam_client_prototype.BufferWriter.{BufferWriter, word, write, put}
use jam_client_prototype.BufferReader.{BufferReader, read}

pub record IsValid (w : BufferWriter) : Type 0 where
  pub sized : length w.buffer ≡ w.size
  pub small : w.size < word
  pub within : w.pos ≤ w.size

-- Fields one after the other; `none` when one is refused.
unfoldable pub write_all : List (List ℕ) → BufferWriter → Option BufferWriter
write_all [] w = some w
write_all (f ∷ fs) w = if (write f w).0 then write_all fs (write f w).1 else none

unfoldable pub read_all : List ℕ → BufferReader → Option (List (List ℕ))
read_all [] r = some []
read_all (n ∷ ns) r = elim (read n r).0 [
  | none ↦ none
  | some f ↦ elim (read_all ns (read n r).1) [ none ↦ none | some fs ↦ some (f ∷ fs) ]
]

abbrev pub total : List (List ℕ) → ℕ
total [] = 0
total (f ∷ fs) = length f + total fs

-- An accepted write, on a valid writer.
write-fits :
    (f : List ℕ) (w : BufferWriter)
    → IsValid w
    → w.pos + length f ≤ w.size
    → write f w ≡ (true, record w { buffer = overwrite w.buffer w.pos f; pos = w.pos + length f })
unfolding write
write-fits f w v h =
    let at : (w.pos + length f) % word ≡ w.pos + length f = omega (arith, v.small) in
    ground (arith, v.small, at)

written-IsValid :
    (f : List ℕ) (w : BufferWriter)
    → IsValid w
    → w.pos + length f ≤ w.size
    → IsValid (record w { buffer = overwrite w.buffer w.pos f; pos = w.pos + length f })
written-IsValid f w v h = record {
  sized = omega (arith, v.sized, length-overwrite w.buffer f w.pos (omega (arith, v.sized)));
  small = v.small;
  within = h;
}

-- What a run of writes leaves: the bytes in front stay, the fields stand from the position on, and
-- the size of the array is kept.
record Written (fs : List (List ℕ)) (w t : BufferWriter) : Type 0 where
  sized : t.size ≡ w.size
  valid : IsValid t
  front : (q : ℕ) → q ≤ w.pos → take q t.buffer ≡ take q w.buffer
  reads :
      read_all (map length fs) (record { buffer = t.buffer; size = t.size; pos = w.pos }) ≡ some fs

-- Reading a field from a valid position.
read-fits :
    (n : ℕ) (r : BufferReader)
    → r.size < word
    → r.pos + n ≤ r.size
    → read n r ≡ (some (take n (drop r.pos r.buffer)), record r { pos = r.pos + n })
unfolding read
read-fits n r small h = let at : (r.pos + n) % word ≡ r.pos + n = omega arith in ground (arith, at)

-- A field written, and bytes behind it changed: it is read back.
field-read :
    (f : List ℕ) (array after : List ℕ) (pos : ℕ)
    → pos + length f ≤ length array
    → take (pos + length f) after ≡ take (pos + length f) (overwrite array pos f)
    → take (length f) (drop pos after) ≡ f
field-read f array after pos fits same =
    let n : pos + length f - pos ≡ length f = omega arith in
    let size : length (take pos array) ≡ pos = omega (arith, length-take pos array) in
    let back : (xs : List ℕ) → drop pos (take (pos + length f) xs) ≡ take (length f) (drop pos xs) =
      λ xs. drop-take pos (pos + length f) xs (omega arith) ∙ ap (λ k. take k (drop pos xs)) n in
    sym (back after)
    ∙ ap (drop pos) same
    ∙ back (overwrite array pos f)
    ∙ ap (take (length f))
        (drop-length (take pos array) (f ++ drop (pos + length f) array) pos (sym size))
    ∙ take-length f (drop (pos + length f) array) (length f) refl

write_all-cons :
    (f : List ℕ) (fs : List (List ℕ)) (w w' : BufferWriter)
    → write f w ≡ (true, w')
    → write_all (f ∷ fs) w ≡ write_all fs w'
unfolding write_all
write_all-cons f fs w w' e = rw e refl

read_all-cons :
    (n : ℕ) (ns : List ℕ) (r r' : BufferReader) (f : List ℕ) (fs : List (List ℕ))
    → read n r ≡ (some f, r')
    → read_all ns r' ≡ some fs
    → read_all (n ∷ ns) r ≡ some (f ∷ fs)
unfolding read_all
read_all-cons n ns r r' f fs e g = rw (read_all, e) (rw (e, g) refl)

-- Writing behind the first `q` bytes keeps them.
take-overwrite :
    (array f : List ℕ) (at q : ℕ)
    → q ≤ at
    → at ≤ length array
    → take q (overwrite array at f) ≡ take q array
take-overwrite array f at q h k =
    take-le q (take at array) (f ++ drop (at + length f) array)
      (omega (arith, length-take at array))
    ∙ take-take q at array h

write_all-Written :
    (fs : List (List ℕ)) (w : BufferWriter)
    → IsValid w
    → w.pos + total fs ≤ w.size
    → (t : BufferWriter) × ((write_all fs w ≡ some t) × Written fs w t)
unfolding write_all read_all
write_all-Written [] w v h =
    (w, (refl, record { sized = refl; valid = v; front = λ q l. refl; reads = refl }))
write_all-Written (f ∷ fs) w v h =
    let w' = record w { buffer = overwrite w.buffer w.pos f; pos = w.pos + length f } in
    let one = write-fits f w v (omega arith) in
    let (t, (run, rest)) =
      write_all-Written fs w' (written-IsValid f w v (omega arith)) (omega arith) in
    let from : BufferReader = record { buffer = t.buffer; size = t.size; pos = w.pos } in
    let field =
      field-read f w.buffer t.buffer w.pos (omega (arith, v.sized))
        (rest.front (w.pos + length f) (omega arith)) in
    let first =
      read-fits (length f) from (omega (arith, rest.sized, v.small)) (omega (arith, rest.sized))
      ∙ ap (λ x. (some x, record from { pos = w.pos + length f })) field in
    (
      t,
      (
        write_all-cons f fs w w' one ∙ run,
        record {
          sized = rest.sized;
          valid = rest.valid;
          front = λ q l.
              rest.front q (omega arith)
              ∙ take-overwrite w.buffer f w.pos q l (omega (arith, v.sized, v.within));
          reads =
              read_all-cons (length f) (map length fs) from (record from { pos = w.pos + length f })
                f fs first rest.reads;
        },
      ),
    )

-- Fields that fit behind the position of a valid writer are all accepted, the writer stays valid,
-- the bytes in front of the position stay, and a reader at that position reads the same fields
-- back.
pub read_all-write_all :
    (fs : List (List ℕ)) (w : BufferWriter)
    → IsValid w
    → w.pos + total fs ≤ w.size
    → (t : BufferWriter) × ((write_all fs w ≡ some t)
        × IsValid t
        × (take w.pos t.buffer ≡ take w.pos w.buffer)
        × (read_all (map length fs) (record { buffer = t.buffer; size = t.size; pos = w.pos })
            ≡ some fs))
read_all-write_all fs w v h =
    let (t, (run, r)) = write_all-Written fs w v h in
    (t, (run, r.valid, r.front w.pos (omega arith), r.reads))

-- When `<<` on a valid writer passes the end of the array, and position, value and array together
-- are below 2^32 bytes, a write of any size up to that of the array is accepted after it.
pub put_past_end :
    (src more : List ℕ) (w : BufferWriter)
    → IsValid w
    → w.size < w.pos + length src
    → w.pos + length src + w.size < word
    → length more ≤ w.size
    → (write more (put src w)).0 ≡ true
unfolding write put
put_past_end src more w v past small fits =
    let at : (w.pos + length src) % word ≡ w.pos + length src = omega arith in ground (arith, at)
