-- ===== src/Snapshot/RoundTrip.antt =====
-- A sequence of writes to a snapshot, and the reads of the same kinds.
use tab_linux.Base.{
  ℕ, zero, suc, ◌+◌, ◌/◌, ◌^◌, ◌<◌, ◌≡◌, refl, sym, ap, ◌∙◌, subst, Bool, true, false, Option, some,
  List, [], ◌∷◌, ◌++◌, arith, leb, ◌>>=◌, length, take, drop, length-append, All,
}
use tab_linux.Snapshot.{
  new_reader, from_le_bytes, read_number, Writer, read_bool, read_bytes, read_u16, read_u32,
  read_u64, read_u8, take_bytes, to_le_bytes, write_bool, write_bytes, write_u16, write_u32,
  write_u64, write_u8, Reader,
}

-- What is written and read in one call, and the kinds of call.
pub data Item : Type 0 where
  u8_item u16_item u32_item u64_item : ℕ → Item
  bool_item : Bool → Item
  bytes_item : List ℕ → Item

abbrev pub write_item : Writer → Item → Writer
write_item w (Item.u8_item v) = write_u8 w v
write_item w (Item.u16_item v) = write_u16 w v
write_item w (Item.u32_item v) = write_u32 w v
write_item w (Item.u64_item v) = write_u64 w v
write_item w (Item.bool_item v) = write_bool w v
write_item w (Item.bytes_item v) = write_bytes w v

pub write_items : Writer → List Item → Writer
write_items w [] = w
write_items w (i ∷ is) = write_items (write_item w i) is

-- The value is of its type.
abbrev pub Fits : Item → Type 0
Fits (Item.u8_item v) = v < 2 ^ 8
Fits (Item.u16_item v) = v < 2 ^ 16
Fits (Item.u32_item v) = v < 2 ^ 32
Fits (Item.u64_item v) = v < 2 ^ 64
Fits (Item.bool_item v) = Unit
Fits (Item.bytes_item v) = length v < 2 ^ 64

-- Read an item of the kind of the given one.
abbrev pub read_item : Item → Reader → Option (Item × Reader)
read_item (Item.u8_item v) r = do (v', r') ← read_u8 r; some (Item.u8_item v', r')
read_item (Item.u16_item v) r = do (v', r') ← read_u16 r; some (Item.u16_item v', r')
read_item (Item.u32_item v) r = do (v', r') ← read_u32 r; some (Item.u32_item v', r')
read_item (Item.u64_item v) r = do (v', r') ← read_u64 r; some (Item.u64_item v', r')
read_item (Item.bool_item v) r = do (v', r') ← read_bool r; some (Item.bool_item v', r')
read_item (Item.bytes_item v) r = do (v', r') ← read_bytes r; some (Item.bytes_item v', r')

pub read_items : List Item → Reader → Option (List Item × Reader)
read_items [] r = some ([], r)
read_items (i ∷ is) r = do
  (i', r') ← read_item i r
  (is', r'') ← read_items is r'
  some (i' ∷ is', r'')

pub append_assoc : (xs ys zs : List ℕ) → (xs ++ ys) ++ zs ≡ xs ++ (ys ++ zs)
append_assoc [] ys zs = refl
append_assoc (x ∷ xs) ys zs = ap (λ (t : List ℕ). x ∷ t) (append_assoc xs ys zs)

pub append_nil : (xs : List ℕ) → xs ++ [] ≡ xs
append_nil [] = refl
append_nil (x ∷ xs) = ap (λ (t : List ℕ). x ∷ t) (append_nil xs)

take-append : (xs ys : List ℕ) → take (length xs) (xs ++ ys) ≡ xs
take-append [] ys = refl
take-append (x ∷ xs) ys = ap (λ (t : List ℕ). x ∷ t) (take-append xs ys)

drop-append : (xs ys : List ℕ) → drop (length xs) (xs ++ ys) ≡ ys
drop-append [] ys = refl
drop-append (x ∷ xs) ys = drop-append xs ys

pub length-to_le_bytes : (n v : ℕ) → length (to_le_bytes n v) ≡ n
unfolding to_le_bytes
length-to_le_bytes zero v = refl
length-to_le_bytes (suc n) v = ap suc (length-to_le_bytes n (v / 2 ^ 8))

abbrev at_end : List ℕ → List ℕ → Reader
at_end w post = record { buf = w ++ post; pos = length w }

-- Taking what was appended at the position.
take_bytes-append :
    (w v post : List ℕ) (n : ℕ)
    → length v ≡ n
    → take_bytes n (record { buf = (w ++ v) ++ post; pos = length w })
      ≡ some (v, at_end (w ++ v) post)
unfolding take_bytes
take_bytes-append w v post n e =
    let fits : leb (length w + n) (length ((w ++ v) ++ post)) ≡ true =
      ground (arith, length-append (w ++ v) post, length-append w v) in
    let slice : take n (drop (length w) ((w ++ v) ++ post)) ≡ v =
      rw (append_assoc w v post, drop-append w (v ++ post), sym e) (take-append v post) in
    let end : length w + n ≡ length (w ++ v) = omega (arith, length-append w v) in
    rw (fits, slice, end) refl

pub from_le_bytes-to_le_bytes_2 : (v : ℕ) → v < 2 ^ 16 → from_le_bytes (to_le_bytes 2 v) ≡ v
unfolding from_le_bytes to_le_bytes
from_le_bytes-to_le_bytes_2 v h = omega arith

pub from_le_bytes-to_le_bytes_4 : (v : ℕ) → v < 2 ^ 32 → from_le_bytes (to_le_bytes 4 v) ≡ v
unfolding from_le_bytes to_le_bytes
from_le_bytes-to_le_bytes_4 v h = omega arith

pub from_le_bytes-to_le_bytes_8 : (v : ℕ) → v < 2 ^ 64 → from_le_bytes (to_le_bytes 8 v) ≡ v
unfolding from_le_bytes to_le_bytes
from_le_bytes-to_le_bytes_8 v h = omega arith

-- Reading what was written where the reader stands.
pub read_number-append :
    (n v : ℕ) (w post : List ℕ)
    → from_le_bytes (to_le_bytes n v) ≡ v
    → read_number n (record { buf = (w ++ to_le_bytes n v) ++ post; pos = length w })
      ≡ some (v, at_end (w ++ to_le_bytes n v) post)
unfolding read_number
read_number-append n v w post e =
    rw (take_bytes-append w (to_le_bytes n v) post n (length-to_le_bytes n v), e) refl

pub read_number-byte :
    (v : ℕ) (w post : List ℕ)
    → read_number 1 (record { buf = (w ++ v ∷ []) ++ post; pos = length w })
      ≡ some (v, at_end (w ++ v ∷ []) post)
unfolding read_number from_le_bytes
read_number-byte v w post =
    rw (take_bytes-append w (v ∷ []) post 1 refl)
      (ap (λ (t : ℕ). some (t, at_end (w ++ v ∷ []) post)) (omega arith))

read_bytes-write_bytes :
    (v w post : List ℕ)
    → length v < 2 ^ 64
    → read_bytes (record { buf = write_bytes w v ++ post; pos = length w })
      ≡ some (v, at_end (write_bytes w v) post)
unfolding write_bytes read_bytes write_u64 read_u64
read_bytes-write_bytes v w post h =
    let head : List ℕ = w ++ to_le_bytes 8 (length v) in
    rw
      (
        append_assoc head v post,
        read_number-append 8 (length v) w (v ++ post) (from_le_bytes-to_le_bytes_8 (length v) h),
        sym (append_assoc head v post),
      )
      (take_bytes-append head v post (length v) refl)

-- A value that is written is what a read of its kind takes at its place, and the reader then stands
-- behind it.
read_item-write_item :
    (i : Item) (w post : List ℕ)
    → Fits i
    → read_item i (record { buf = write_item w i ++ post; pos = length w })
      ≡ some (i, at_end (write_item w i) post)
unfolding write_u8 write_u16 write_u32 write_u64 write_bool read_u8 read_u16 read_u32 read_u64
    read_bool
read_item-write_item (Item.u8_item v) w post h = rw (read_number-byte v w post) refl
read_item-write_item (Item.u16_item v) w post h =
    rw (read_number-append 2 v w post (from_le_bytes-to_le_bytes_2 v h)) refl
read_item-write_item (Item.u32_item v) w post h =
    rw (read_number-append 4 v w post (from_le_bytes-to_le_bytes_4 v h)) refl
read_item-write_item (Item.u64_item v) w post h =
    rw (read_number-append 8 v w post (from_le_bytes-to_le_bytes_8 v h)) refl
read_item-write_item (Item.bool_item true) w post h = rw (read_number-byte 1 w post) refl
read_item-write_item (Item.bool_item false) w post h = rw (read_number-byte 0 w post) refl
read_item-write_item (Item.bytes_item v) w post h = rw (read_bytes-write_bytes v w post h) refl

-- More writes only append.
write_item-append : (i : Item) (w : Writer) → (tail : List ℕ) × (write_item w i ≡ w ++ tail)
unfolding write_u8 write_u16 write_u32 write_u64 write_bool write_bytes
write_item-append (Item.u8_item v) w = (_, refl)
write_item-append (Item.u16_item v) w = (_, refl)
write_item-append (Item.u32_item v) w = (_, refl)
write_item-append (Item.u64_item v) w = (_, refl)
write_item-append (Item.bool_item v) w = (_, refl)
write_item-append (Item.bytes_item v) w = (_, append_assoc w _ v)

write_items-append :
    (is : List Item) (w : Writer) → (tail : List ℕ) × (write_items w is ≡ w ++ tail)
unfolding write_items
write_items-append [] w = ([], sym (append_nil w))
write_items-append (i ∷ is) w =
    let (first, e) = write_item-append i w in
    let (later, d) = write_items-append is (write_item w i) in
    (first ++ later, d ∙ ap (λ (t : List ℕ). t ++ later) e ∙ append_assoc w first later)

read_items-from :
    (is : List Item) (w : Writer)
    → All Fits is
    → read_items is (record { buf = write_items w is; pos = length w })
      ≡ some (is, record { buf = write_items w is; pos = length (write_items w is) })
unfolding read_items write_items
read_items-from [] w h = refl
read_items-from (i ∷ is) w (h, hs) =
    let (later, d) = write_items-append is (write_item w i) in
    let first : read_item i (record { buf = write_items (write_item w i) is; pos = length w })
        ≡ some
            (i, record { buf = write_items (write_item w i) is; pos = length (write_item w i) }) =
      subst
        (λ (b : List ℕ).
          read_item i (record { buf = b; pos = length w })
          ≡ some (i, record { buf = b; pos = length (write_item w i) }))
        (sym d) (read_item-write_item i w later h) in
    rw (first, read_items-from is (write_item w i) hs) refl

-- A snapshot that a sequence of writes makes from an empty buffer reads back, by reads of the same
-- kinds, as the same values, if each value is of its type, and nothing is left over.
pub read_items-write_items :
    (is : List Item)
    → All Fits is
    → read_items is (new_reader (write_items [] is))
      ≡ some (is, record { buf = write_items [] is; pos = length (write_items [] is) })
unfolding new_reader
read_items-write_items is h = read_items-from is [] h
