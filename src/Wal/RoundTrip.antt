-- ===== src/Wal/RoundTrip.antt =====
-- Reading a log back: `Recover` against the appends that wrote the file.
use flashsale_system_imitati.Prelude.{
  ℕ, zero, suc, ◌+◌, ◌≤◌, ◌<◌, ◌≡◌, refl, sym, ap, ap₂, ◌∙◌, true, some, List, [], ◌∷◌, ◌++◌, map,
  length, take, drop, length-append, append_assoc, take-length_append, drop-length_append,
  length-take, length-drop, arith, append-nil,
}
use flashsale_system_imitati.Prelude.Int.{pos}
use flashsale_system_imitati.Wal.{
  Bytes, WalRecord, encode, decode, append, recover_from, recover, record_size,
}
use flashsale_system_imitati.Wal.Bytes.{IsStorable, length-encode, decode-encode}

-- What is appended: a record, with the word in its padding.
abbrev pub Entry : Type 0
Entry = ℕ × WalRecord

abbrev pub AllStorable : List Entry → Type 0
AllStorable [] = Unit
AllStorable (e ∷ es) = IsStorable e.1 × AllStorable es

-- The file that holds these entries and nothing else.
abbrev pub log_of : List Entry → Bytes
log_of [] = []
log_of ((pad, r) ∷ es) = encode pad r ++ log_of es

pub log_of-append : (xs ys : List Entry) → log_of (xs ++ ys) ≡ log_of xs ++ log_of ys
log_of-append [] ys = refl
log_of-append ((pad, r) ∷ xs) ys =
    ap (λ l. encode pad r ++ l) (log_of-append xs ys)
    ∙ sym (append_assoc (encode pad r) (log_of xs) (log_of ys))

pub AllStorable-append :
    (xs ys : List Entry) → AllStorable xs → AllStorable ys → AllStorable (xs ++ ys)
AllStorable-append [] ys hx hy = hy
AllStorable-append (x ∷ xs) ys hx hy = (hx.0, AllStorable-append xs ys hx.1 hy)

-- The entries appended one by one, each written whole.
unfoldable pub append_all : List Entry → Bytes → Bytes
append_all [] file = file
append_all ((pad, r) ∷ es) file = append_all es (append (pos record_size) file (encode pad r)).1

pub append-whole :
    (file : Bytes) (pad : ℕ) (r : WalRecord)
    → append (pos record_size) file (encode pad r) ≡ (true, file ++ encode pad r)
unfolding append encode
append-whole file pad r = refl

pub append_all-eq : (es : List Entry) (file : Bytes) → append_all es file ≡ file ++ log_of es
unfolding append_all
append_all-eq [] file = sym (append-nil file)
append_all-eq ((pad, r) ∷ es) file =
    ap (λ o. append_all es o.1) (append-whole file pad r)
    ∙ append_all-eq es (file ++ encode pad r)
    ∙ append_assoc file (encode pad r) (log_of es)

-- One round of the loop.
pub recover_from-append :
    (f : ℕ) (bs rest : Bytes)
    → length bs ≡ record_size
    → recover_from (suc f) (bs ++ rest) ≡ decode bs ∷ recover_from f rest
unfolding recover_from
recover_from-append f bs rest h = rw (front, back, h)
  where
    front : take record_size (bs ++ rest) ≡ bs
    front = ap (λ n. take n (bs ++ rest)) (sym h) ∙ take-length_append bs rest

    back : drop record_size (bs ++ rest) ≡ rest
    back = ap (λ n. drop n (bs ++ rest)) (sym h) ∙ drop-length_append bs rest

-- Fewer bytes than a record end the loop.
pub recover_from-torn :
    (f : ℕ) (torn : Bytes) → length torn < record_size → recover_from f torn ≡ []
unfolding recover_from
recover_from-torn zero torn h = refl
recover_from-torn (suc f) torn h = ground (arith, length-take record_size torn)

length-log_of : (es : List Entry) → length es ≤ length (log_of es)
length-log_of [] = omega arith
length-log_of ((pad, r) ∷ es) =
    omega (arith, length-append (encode pad r) (log_of es), length-encode pad r, length-log_of es)

pub recover_from-log :
    (f : ℕ) (es : List Entry) (rest : Bytes)
    → AllStorable es
    → recover_from (length es + f) (log_of es ++ rest) ≡ map (λ e. e.1) es ++ recover_from f rest
recover_from-log f [] rest v = ap (λ n. recover_from n rest) (omega arith)
recover_from-log f ((pad, r) ∷ es) rest v =
    ap₂ recover_from (suc-add (length es) f) (append_assoc (encode pad r) (log_of es) rest)
    ∙ recover_from-append (length es + f) (encode pad r) (log_of es ++ rest) (length-encode pad r)
    ∙ ap₂ ◌∷◌ (decode-encode pad r v.0) (recover_from-log f es rest v.1)
  where
    suc-add : (a b : ℕ) → suc a + b ≡ suc (a + b)
    suc-add a b = omega arith

-- The fuel of `recover`, a round for each byte, is enough: more changes nothing.
pub recover_from_enough :
    (f g : ℕ) (file : Bytes)
    → length file ≤ f
    → length file ≤ g
    → recover_from f file ≡ recover_from g file
unfolding recover_from
recover_from_enough zero g file hf hg = sym (recover_from-torn g file (omega arith))
recover_from_enough (suc f) zero file hf hg = recover_from-torn (suc f) file (omega arith)
recover_from_enough (suc f) (suc g) file hf hg = ground (
  arith,
  recover_from_enough f g (drop record_size file),
  length-take record_size file,
  length-drop record_size file,
)

-- Whole entries at the front of a file are recovered, and then what follows them.
pub recover-log_of :
    (es : List Entry) (rest : Bytes)
    → AllStorable es
    → recover (some (log_of es ++ rest)) ≡ map (λ e. e.1) es ++ recover (some rest)
unfolding recover
recover-log_of es rest v =
    recover_from_enough size (length es + size) (log_of es ++ rest) (omega arith) (omega arith)
    ∙ recover_from-log size es rest v
    ∙ ap (λ rs. map (λ e. e.1) es ++ rs)
        (recover_from_enough size (length rest) rest (omega (arith, length-append (log_of es) rest))
          (omega arith))
  where
    size : ℕ
    size = length (log_of es ++ rest)

pub recover-torn : (torn : Bytes) → length torn < record_size → recover (some torn) ≡ []
unfolding recover
recover-torn torn h = recover_from-torn (length torn) torn h

-- After a crash that left any number of whole records and fewer than 40 bytes of a last one,
-- `Recover` gives the callback exactly the whole records, in the order in which they were appended, if
-- their fields are in the range of their types.
pub recover-append_all :
    (es : List Entry) (torn : Bytes)
    → AllStorable es
    → length torn < record_size
    → recover (some (append_all es [] ++ torn)) ≡ map (λ e. e.1) es
recover-append_all es torn v h =
    ap (λ file. recover (some (file ++ torn))) (append_all-eq es [])
    ∙ recover-log_of es torn v
    ∙ ap (λ rs. map (λ e. e.1) es ++ rs) (recover-torn torn h)
    ∙ append-nil (map (λ e. e.1) es)
