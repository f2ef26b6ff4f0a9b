-- ===== src/Stock/Posting/Documents/Rows.antt =====
-- The document of a posting among the rows of its table.
use ckitchen_backend.Prelude.{
  ℕ, suc, ◌+◌, ◌≤◌, ◌≡◌, refl, ap, ◌∙◌, Bool, true, false, ◌&&◌, not, Option, none, some, List, [],
  ◌∷◌, Text, text_eq, text_eq_iff, any, find?, select, update_where, find?-update_where,
  find?-holds, some_eq, length, ◌==◌, Bool-cases, not-eq-false, inl, inr, arith, ok, Option-cases,
  ok-injective, throw_if-eq-ok, or_throw-eq-ok,
}
use ckitchen_backend.Stock.Types.{PostingInput, Document, Db}
use ckitchen_backend.Stock.Guards.{is_document, lock_operational_document}
use ckitchen_backend.Stock.Ledger.{advance_document, is_free_document}

-- The unique index on the module and the document number.
abbrev pub AreUnique : List Document → Type 0
AreUnique docs = (m n : Text) → length (select (is_document m n) docs) ≤ 1

none_selected :
    {A : Type 0} (p q : A → Bool) (xs : List A)
    → ((x : A) → p x ≡ true → q x ≡ true)
    → length (select q xs) ≤ 0
    → any p xs ≡ true
    → ⊥
none_selected p q [] narrow few hit = cc
none_selected p q (x ∷ xs) narrow few hit = elim (Bool-cases (q x)) [
  | inl e ↦ absurd (positive (rw e at few))
  | inr e ↦ elim (Bool-cases (p x)) [
    | inl f ↦ clash (narrow x f) e
    | inr f ↦ none_selected p q xs narrow (rw e at few) (rw f at hit)
  ]
]
  where
    positive : {n : ℕ} → suc n ≤ 0 → ⊥
    positive h = omega arith

    clash : {b : Bool} → b ≡ true → b ≡ false → ⊥
    clash t f = cc

-- The only row of a query is the one that a narrower query finds.
only_row :
    {A : Type 0} (p q : A → Bool) (xs : List A) {a : A}
    → ((x : A) → p x ≡ true → q x ≡ true)
    → length (select q xs) ≤ 1
    → find? q xs ≡ some a
    → any p xs ≡ true
    → p a ≡ true
only_row p q [] narrow one found hit = cc
only_row p q (x ∷ xs) {a} narrow one found hit = elim (Bool-cases (q x)) [
  | inr e ↦ elim (Bool-cases (p x)) [
    | inl f ↦ absurd (clash (narrow x f) e)
    | inr f ↦ only_row p q xs narrow (rw e at one) (rw e at found) (rw f at hit)
  ]
  | inl e ↦
      let same : x ≡ a = some_eq (rw e at found) in
      elim (Bool-cases (p x)) [
        | inl f ↦ rw (← same, f)
        | inr f ↦ absurd (none_selected p q xs narrow (less (rw e at one)) (rw f at hit))
      ]
]
  where
    less : {n : ℕ} → suc n ≤ 1 → n ≤ 0
    less h = omega arith

    clash : {b : Bool} → b ≡ true → b ≡ false → ⊥
    clash t f = cc

-- An update that a query does not see keeps the number of rows that it selects.
length-select-update_where :
    {A : Type 0} (p q : A → Bool) (f : A → A)
    → ((x : A) → q (f x) ≡ q x)
    → (xs : List A) → length (select q (update_where p f xs)) ≡ length (select q xs)
length-select-update_where p q f keeps [] = refl
length-select-update_where p q f keeps (x ∷ xs) = elim (Bool-cases (p x)) [
  | inl hit ↦ elim (Bool-cases (q x)) [
    | inl e ↦ rw (hit, keeps x, e, length-select-update_where p q f keeps xs)
    | inr e ↦ rw (hit, keeps x, e, length-select-update_where p q f keeps xs)
  ]
  | inr miss ↦ elim (Bool-cases (q x)) [
    | inl e ↦ rw (miss, e, length-select-update_where p q f keeps xs)
    | inr e ↦ rw (miss, e, length-select-update_where p q f keeps xs)
  ]
]

abbrev pub posted : Text → ℕ → Document → Document
posted status id d = record d {
  status = status;
  version = d.version + 1;
  stock_posting_id = some id;
}

abbrev pub document_of : PostingInput → Db → Option Document
document_of input db = find? (is_document input.source_module input.source_document_no) db.documents

and_left : (a b : Bool) → (a && b) ≡ true → a ≡ true
and_left true b h = refl
and_left false b h = cc

and_right : (a b : Bool) → (a && b) ≡ true → b ≡ true
and_right true b h = h
and_right false b h = cc

-- The ends of the condition of the update.
and_ends : (a b c e : Bool) → (a && b && c && e) ≡ true → (a ≡ true) × (e ≡ true)
and_ends true true true e h = (refl, h)
and_ends true true false e h = cc
and_ends true false c e h = cc
and_ends false b c e h = cc

-- A free document has the identity of the one that was locked.
free-narrow :
    (d x : Document) (m n : Text)
    → is_document m n d ≡ true
    → is_free_document d x ≡ true
    → is_document m n x ≡ true
free-narrow d x m n named free =
    let module_eq = (text_eq_iff d.module_name m).0 (and_left (text_eq d.module_name m) _ named) in
    let number_eq = (text_eq_iff d.document_no n).0 (and_right (text_eq d.module_name m) _ named) in
    rw (← module_eq, ← number_eq)
      (and_ends (is_document d.module_name d.document_no x) _ _ _ free).0

free-unposted : (d x : Document) → is_free_document d x ≡ true → x.stock_posting_id ≡ none
free-unposted d x free = elim (Option-cases x.stock_posting_id) [
  | inl e ↦ e
  | inr (id, e) ↦ absurd (never (rw e at posted_test))
]
  where
    posted_test : elim x.stock_posting_id [ none ↦ true | some _ ↦ false ] ≡ true
    posted_test = (and_ends (is_document d.module_name d.document_no x) _ _ _ free).1

    never : false ≡ true → ⊥
    never h = cc

pub document_of-locked :
    (db : Db) (input : PostingInput) {d : Document}
    → lock_operational_document db input ≡ ok d
    → document_of input db ≡ some d
unfolding lock_operational_document
document_of-locked db input h =
    let (found, found_eq, h₁) = or_throw-eq-ok (document_of input db) _ _ h in
    let (_, h₂) = throw_if-eq-ok (not (found.location_id == input.location_id)) _ _ h₁ in
    found_eq ∙ ap some (ok-injective h₂)

-- What advancing a document that was found writes.
pub document_of-advanced :
    (db db' : Db) (input : PostingInput) (d : Document) (status : Text) (id : ℕ)
    → AreUnique db.documents
    → document_of input db ≡ some d
    → advance_document d status id db.documents ≡ ok db'.documents
    → (d.stock_posting_id ≡ none)
      × (document_of input db' ≡ some (posted status id d))
      × AreUnique db'.documents
unfolding advance_document
document_of-advanced db db' input d status id unique found h =
    let q = is_document input.source_module input.source_document_no in
    let (tested, h₁) = throw_if-eq-ok (not (any (is_free_document d) db.documents)) _ _ h in
    let free : is_free_document d d ≡ true =
      only_row (is_free_document d) q db.documents
        (λ x. free-narrow d x _ _ (find?-holds q db.documents found)) (unique _ _) found
        (not-eq-false _ tested) in
    let written =
      find?-update_where (is_free_document d) q (posted status id) (λ x. refl) db.documents in
    (
      free-unposted d d free,
      rw (← ok-injective h₁, written, found, free),
      λ m n.
          rw
            (
              ← ok-injective h₁,
              length-select-update_where (is_free_document d) (is_document m n) (posted status id)
                  (λ x. refl) db.documents,
            )
            (unique m n),
    )
