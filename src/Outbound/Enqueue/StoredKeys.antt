-- ===== src/Outbound/Enqueue/StoredKeys.antt =====
-- src/modules/outbound/service.ts: `buildStoredKey` joins four texts by colons. The ids are UUIDs,
-- which hold no colon, and an order id is not the text "L"; the caller's key may hold anything.
use ckitchen_backend.Prelude.{
  ℕ, ◌≡◌, refl, sym, ap, ◌∙◌, Bool, true, false, ◌&&◌, not, Option, none, some, List, [], ◌∷◌, ◌++◌,
  Text, codes, text_eq, all, find?, ◌==◌, ◌≢◌, arith,
}
use ckitchen_backend.Outbound.Types.{CommandType, command_name}
use ckitchen_backend.Outbound.Enqueue.{EnqueueInput, build_stored_key, order_part}

abbrev pub HasNoColon : Text → Type 0
HasNoColon s = all (λ c. not (c == 58)) s ≡ true

abbrev tail : Text → Text
tail [] = []
tail (c ∷ s) = s

abbrev head : Text → ℕ
head [] = 0
head (c ∷ s) = c

and_right : (a : Bool) {b : Bool} → (a && b) ≡ true → b ≡ true
and_right true h = h
and_right false h = cc

clash : (d : ℕ) (b : Bool) → 58 ≡ d → (not (d == 58) && b) ≡ true → ⊥
clash d b e h = ground (arith, e, h)

-- Two texts that begin with a part without a colon, a colon, and a rest.
split_equal :
    (s t rest rest₁ : Text)
    → HasNoColon s
    → HasNoColon t
    → s ++ (58 ∷ rest) ≡ t ++ (58 ∷ rest₁)
    → (s ≡ t) × (rest ≡ rest₁)
split_equal [] [] rest rest₁ hs ht e = (refl, ap tail e)
split_equal [] (d ∷ t) rest rest₁ hs ht e = absurd (clash d _ (ap head e) ht)
split_equal (c ∷ s) [] rest rest₁ hs ht e = absurd (clash c _ (sym (ap head e)) hs)
split_equal (c ∷ s) (d ∷ t) rest rest₁ hs ht e =
    let parts : (s ≡ t) × (rest ≡ rest₁) =
      split_equal s t rest rest₁ (and_right (not (c == 58)) hs) (and_right (not (d == 58)) ht)
        (ap tail e) in
    (cc, parts.1)

abbrev pub IsOrderId : Option Text → Type 0
IsOrderId none = Unit
IsOrderId (some id) = HasNoColon id × (id ≢ codes "L")

order_part-injective :
    (a b : Option Text) → IsOrderId a → IsOrderId b → order_part a ≡ order_part b → a ≡ b
order_part-injective none none ha hb e = refl
order_part-injective none (some id) ha hb e = absurd (hb.1 (sym e))
order_part-injective (some id) none ha hb e = absurd (ha.1 e)
order_part-injective (some id) (some id₁) ha hb e = ap some e

order_part-HasNoColon : (a : Option Text) → IsOrderId a → HasNoColon (order_part a)
order_part-HasNoColon none h = refl
order_part-HasNoColon (some id) h = h.0

abbrev command_types : List CommandType
command_types =
    CommandType.accept_order ∷ CommandType.reject_order ∷ CommandType.mark_ready
    ∷ CommandType.update_ready_time ∷ CommandType.pause_store ∷ CommandType.resume_store
    ∷ CommandType.set_item_availability ∷ CommandType.notify_menu_updated
    ∷ CommandType.contest_cancellation ∷ []

command_name-HasNoColon : (t : CommandType) → HasNoColon (command_name t)
unfolding command_name
command_name-HasNoColon CommandType.accept_order = refl
command_name-HasNoColon CommandType.reject_order = refl
command_name-HasNoColon CommandType.mark_ready = refl
command_name-HasNoColon CommandType.update_ready_time = refl
command_name-HasNoColon CommandType.pause_store = refl
command_name-HasNoColon CommandType.resume_store = refl
command_name-HasNoColon CommandType.set_item_availability = refl
command_name-HasNoColon CommandType.notify_menu_updated = refl
command_name-HasNoColon CommandType.contest_cancellation = refl

-- The type of a name, by which no two types have the same name.
abbrev named : Text → CommandType
named s = elim (find? (λ t. text_eq (command_name t) s) command_types) [
  | none ↦ CommandType.accept_order
  | some t ↦ t
]

named-command_name : (t : CommandType) → named (command_name t) ≡ t
unfolding command_name text_eq
named-command_name CommandType.accept_order = refl
named-command_name CommandType.reject_order = refl
named-command_name CommandType.mark_ready = refl
named-command_name CommandType.update_ready_time = refl
named-command_name CommandType.pause_store = refl
named-command_name CommandType.resume_store = refl
named-command_name CommandType.set_item_availability = refl
named-command_name CommandType.notify_menu_updated = refl
named-command_name CommandType.contest_cancellation = refl

abbrev after_order : EnqueueInput → Text
after_order a = command_name a.command_type ++ (58 ∷ a.idempotency_key)

abbrev after_account : EnqueueInput → Text
after_account a = order_part a.order_id ++ (58 ∷ after_order a)

-- Where the ids of listings and orders hold no colon, and no order has the id L, two inputs with the
-- same stored key agree in the listing, the order, the type and the caller's key.
pub build_stored_key-injective :
    (a b : EnqueueInput)
    → HasNoColon a.aggregator_account_id
    → HasNoColon b.aggregator_account_id
    → IsOrderId a.order_id
    → IsOrderId b.order_id
    → build_stored_key a ≡ build_stored_key b
    → (a.aggregator_account_id ≡ b.aggregator_account_id)
      × (a.order_id ≡ b.order_id)
      × (a.command_type ≡ b.command_type)
      × (a.idempotency_key ≡ b.idempotency_key)
unfolding build_stored_key
build_stored_key-injective a b account account₁ order order₁ e =
    let first =
      split_equal a.aggregator_account_id b.aggregator_account_id (after_account a)
        (after_account b) account account₁ e in
    let second =
      split_equal (order_part a.order_id) (order_part b.order_id) (after_order a) (after_order b)
        (order_part-HasNoColon a.order_id order) (order_part-HasNoColon b.order_id order₁)
        first.1 in
    let third =
      split_equal (command_name a.command_type) (command_name b.command_type) a.idempotency_key
        b.idempotency_key (command_name-HasNoColon a.command_type)
        (command_name-HasNoColon b.command_type) second.1 in
    (
      first.0,
      order_part-injective a.order_id b.order_id order order₁ second.0,
      sym (named-command_name a.command_type)
          ∙ ap named third.0
          ∙ named-command_name b.command_type,
      third.1,
    )
