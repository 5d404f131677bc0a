-- ===== src/JsonText/Documents.antt =====
-- The writer of json_text.rs, driven over a whole document as generated code does.
use native.Mathlib.Nat.{mul-le-mul_left}
use telora.Common.{
  append_assoc, append-nil, ℕ, zero, suc, ◌+◌, ◌-◌, ◌*◌, ◌≤◌, max, ◌≡◌, refl, sym, ap, ◌∙◌, Bool,
  true, false, Option, none, some, List, [], ◌∷◌, ◌++◌, arith, leb, ◌==◌, if◌then◌else◌, replicate,
  u32_max,
}
use telora.JsonText.{
  Writer, new, push, newline, open_collection, item, colon, close_collection, string,
}
use telora.JsonText.Escaping.{escaped_bytes, quoted-bytes}

-- The entries of a collection: strings and collections. Their keys are written in objects only.
pub data Entries : Type 0 where
  end : Entries
  leaf : (key content : List ℕ) (rest : Entries) → Entries
  nest : (key : List ℕ) (object : Bool) (inner rest : Entries) → Entries

abbrev pub and_then {ℓ} : {A B : Type ℓ} → Option A → (A → Option B) → Option B
and_then none f = none
and_then (some a) f = f a

abbrev pub nonempty : Entries → Bool
nonempty end = false
nonempty (leaf key content rest) = true
nonempty (nest key object inner rest) = true

abbrev pub key_of : Bool → List ℕ → Writer → Writer
key_of object key w = if object then colon (string key w) else w

-- The calls for the entries from an index on.
pub emit : (object : Bool) → ℕ → Entries → Writer → Option Writer
emit object index end w = some w
emit object index (leaf key content rest) w =
    and_then (item index w)
      (λ v. emit object (suc index) rest (string content (key_of object key v)))
emit object index (nest key o inner rest) w = and_then (item index w) (λ v.
    and_then (open_collection o (key_of object key v)) (λ u. and_then (emit o 0 inner u) (λ t.
      and_then (close_collection o (nonempty inner) t) (λ s. emit object (suc index) rest s))))

-- The text of a document, independent of any state.
abbrev pub line : Option ℕ → ℕ → List ℕ
line none depth = []
line (some width) depth = 10 ∷ replicate (depth * width) 32

abbrev pub quote : List ℕ → List ℕ
quote s = 34 ∷ (escaped_bytes s ++ 34 ∷ [])

abbrev pub key_text : Option ℕ → Bool → List ℕ → List ℕ
key_text indent false key = []
key_text none true key = quote key ++ 58 ∷ []
key_text (some width) true key = quote key ++ 58 ∷ 32 ∷ []

abbrev pub separator : ℕ → List ℕ
separator zero = []
separator (suc index) = 44 ∷ []

abbrev pub left_bracket : Bool → List ℕ
left_bracket o = if o then 123 ∷ [] else 91 ∷ []

abbrev pub right_bracket : Bool → List ℕ
right_bracket o = if o then 125 ∷ [] else 93 ∷ []

pub text : Option ℕ → ℕ → Bool → ℕ → Entries → List ℕ
text indent depth object index end = []
text indent depth object index (leaf key content rest) =
    separator index
    ++ (line indent depth
        ++ (key_text indent object key
            ++ (quote content ++ text indent depth object (suc index) rest)))
text indent depth object index (nest key o inner rest) =
    separator index
    ++ (line indent depth
        ++ (key_text indent object key
            ++ (left_bracket o
                ++ (text indent (suc depth) o 0 inner
                    ++ ((if nonempty inner then line indent depth else [])
                        ++ (right_bracket o ++ text indent depth object (suc index) rest))))))

-- How deep the collections of the entries nest.
abbrev pub height : Entries → ℕ
height end = 0
height (leaf key content rest) = height rest
height (nest key o inner rest) = max (suc (height inner)) (height rest)

abbrev pub writer : Option ℕ → ℕ → List ℕ → Writer
writer indent depth output = record { output = output; indent = indent; depth = depth }

abbrev pub Narrow : Option ℕ → Type 0
Narrow none = Unit {0}
Narrow (some width) = width ≤ 16

newline-line :
    (indent : Option ℕ) (depth : ℕ) (out : List ℕ)
    → Narrow indent
    → depth * 16 ≤ u32_max
    → newline (writer indent depth out) ≡ some (writer indent depth (out ++ line indent depth))
unfolding newline push
newline-line none depth out n h = ap (λ t. some (writer none depth t)) (sym (append-nil out))
newline-line (some width) depth out n h =
    let product : depth * width ≤ u32_max = omega (arith, mul-le-mul_left depth n) in
    let fits : leb (depth * width) u32_max ≡ true = ground arith in rw (fits, newline, push) refl

item-line :
    (indent : Option ℕ) (depth index : ℕ) (out : List ℕ)
    → Narrow indent
    → depth * 16 ≤ u32_max
    → item index (writer indent depth out)
      ≡ some (writer indent depth (out ++ (separator index ++ line indent depth)))
unfolding item push
item-line indent depth zero out n h = newline-line indent depth out n h
item-line indent depth (suc index) out n h =
    let later : (suc index == 0) ≡ false = ground arith in
    rw (later, item, newline-line indent depth (out ++ 44 ∷ []) n h)
      (ap (λ t. some (writer indent depth t)) (append_assoc out (44 ∷ []) (line indent depth)))

open-bracket :
    (o : Bool) (indent : Option ℕ) (depth : ℕ) (out : List ℕ)
    → suc depth ≤ u32_max
    → open_collection o (writer indent depth out)
      ≡ some (writer indent (suc depth) (out ++ left_bracket o))
unfolding open_collection push
open-bracket o indent depth out h =
    let fits : leb (depth + 1) u32_max ≡ true = ground arith in
    let deeper : depth + 1 ≡ suc depth = omega arith in rw (fits, open_collection, deeper) refl

close-bracket :
    (o n : Bool) (indent : Option ℕ) (depth : ℕ) (out : List ℕ)
    → Narrow indent
    → depth * 16 ≤ u32_max
    → close_collection o n (writer indent (suc depth) out)
      ≡ some
          (writer indent depth (out ++ ((if n then line indent depth else []) ++ right_bracket o)))
unfolding close_collection push
close-bracket o false indent depth out f h =
    let inside : (suc depth == 0) ≡ false = ground arith in
    let outer : suc depth - 1 ≡ depth = omega arith in rw (inside, close_collection, outer) refl
close-bracket o true indent depth out f h =
    let inside : (suc depth == 0) ≡ false = ground arith in
    let outer : suc depth - 1 ≡ depth = omega arith in
    rw (inside, close_collection, outer, newline-line indent depth out f h)
      (ap (λ t. some (writer indent depth t))
        (append_assoc out (line indent depth) (right_bracket o)))

key-text :
    (object : Bool) (key : List ℕ) (indent : Option ℕ) (depth : ℕ) (out : List ℕ)
    → key_of object key (writer indent depth out)
      ≡ writer indent depth (out ++ key_text indent object key)
unfolding string colon push
key-text false key indent depth out = ap (writer indent depth) (sym (append-nil out))
key-text true key none depth out = ap (writer none depth) (
    ap (λ (t : List ℕ). t ++ 58 ∷ []) (quoted-bytes out key)
    ∙ append_assoc out (quote key) (58 ∷ []))
key-text true key (some width) depth out = ap (writer (some width) depth) (
    ap (λ (t : List ℕ). t ++ 58 ∷ 32 ∷ []) (quoted-bytes out key)
    ∙ append_assoc out (quote key) (58 ∷ 32 ∷ []))

string-quote :
    (content : List ℕ) (indent : Option ℕ) (depth : ℕ) (out : List ℕ)
    → string content (writer indent depth out) ≡ writer indent depth (out ++ quote content)
unfolding string
string-quote content indent depth out = ap (writer indent depth) (quoted-bytes out content)

-- The writer calls for any entries succeed within the depth that a u32 allows, append the text of
-- the entries and restore the depth.
pub emit-text :
    (indent : Option ℕ) (depth : ℕ) (object : Bool) (index : ℕ) (es : Entries) (out : List ℕ)
    → Narrow indent
    → (depth + height es) * 16 ≤ u32_max
    → emit object index es (writer indent depth out)
      ≡ some (writer indent depth (out ++ text indent depth object index es))
unfolding emit text
emit-text indent depth object index end out n h =
    ap (λ t. some (writer indent depth t)) (sym (append-nil out))
emit-text indent depth object index (leaf key content rest) out n h =
    rw
      (
        item-line indent depth index out n (omega arith),
        emit,
        and_then,
        key-text object key indent depth (out ++ (separator index ++ line indent depth)),
        string-quote content indent depth _,
        emit-text indent depth object (suc index) rest _ n h,
      )
      (ap (λ t. some (writer indent depth t)) (simp append_assoc))
emit-text indent depth object index (nest key o inner rest) out n h =
    let deep : suc depth ≤ u32_max = omega arith in
    let inner_room : (suc depth + height inner) * 16 ≤ u32_max = omega arith in
    let rest_room : (depth + height rest) * 16 ≤ u32_max = omega arith in
    let low : depth * 16 ≤ u32_max = omega arith in
    rw
      (
        item-line indent depth index out n low,
        emit,
        and_then,
        key-text object key indent depth (out ++ (separator index ++ line indent depth)),
        open-bracket o indent depth _ deep,
        emit-text indent (suc depth) o 0 inner _ n inner_room,
        close-bracket o (nonempty inner) indent depth _ n low,
        emit-text indent depth object (suc index) rest _ n rest_room,
      )
      (ap (λ t. some (writer indent depth t)) (simp append_assoc))

new-writer : (indent : Option ℕ) → Narrow indent → new indent ≡ some (writer indent 0 [])
unfolding new
new-writer none n = refl
new-writer (some width) n = ground arith

-- A whole document from a fresh writer.
pub write_document : Option ℕ → Bool → Entries → Option Writer
write_document indent object es = and_then (new indent) (λ w.
    and_then (open_collection object w)
      (λ v. and_then (emit object 0 es v) (λ u. close_collection object (nonempty es) u)))

-- With an indent of at most 16 and a nesting that a u32 allows, no call of the writer panics, the
-- output is the text of the document in its brackets, and the writer is back at depth 0.
pub write_document-text :
    (indent : Option ℕ) (object : Bool) (es : Entries)
    → Narrow indent
    → (1 + height es) * 16 ≤ u32_max
    → write_document indent object es
      ≡ some (
          writer indent 0 (
            left_bracket object
            ++ (text indent 1 object 0 es
                ++ ((if nonempty es then line indent 0 else []) ++ right_bracket object))))
unfolding write_document
write_document-text indent object es n h =
    rw
      (
        new-writer indent n,
        write_document,
        and_then,
        open-bracket object indent 0 [] (omega arith),
        emit-text indent 1 object 0 es _ n h,
        close-bracket object (nonempty es) indent 0 _ n (omega arith),
      )
      (ap (λ t. some (writer indent 0 t)) (simp append_assoc))
