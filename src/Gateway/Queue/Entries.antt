-- ===== src/Gateway/Queue/Entries.antt =====
-- src/llmmaxxing/gateway/scheduler.py: queue entries and the fairness state of `WDRRQueue`.
-- A state's tuples are items of dicts, so `_decode_state` gives back the lists that stand here, and
-- `_encode_state` sorts them. The key id's length test in `QueueEntry` is left out: a key id is
-- always 32 characters long.
use llmmaxxing.Base.{
  ℕ, ◌≡◌, ◌↔◌, Bool, true, false, not, ◌&&◌, ◌||◌, List, [], ◌∷◌, arith, ◌==◌, ltb, if◌then◌else◌,
  Eq, same, contains, unique, length, null, map, Result, ok, value_error, ◌>>◌, raise_if, nat_eq,
  list_eq, pair_eq,
}
use llmmaxxing.Base.Dict.{Dict}
use llmmaxxing.Base.Dict.Order.{sort_items}
use llmmaxxing.Core.Ids.{RequestId, KeyId}
use llmmaxxing.Core.Models.Legs.{AuthorizedLeg, leg_eq}

pub data Scarcity : Type 0 where
  scarce flexible : Scarcity

abbrev scarcity_beq : Scarcity → Scarcity → Bool
scarcity_beq scarce scarce = true
scarcity_beq flexible flexible = true
scarcity_beq _ _ = false

pub scarcity_beq_iff : (a b : Scarcity) → (scarcity_beq a b ≡ true) ↔ (a ≡ b)
scarcity_beq_iff a b = ground arith

instance abbrev pub scarcity_eq : Eq Scarcity
scarcity_eq = record { beq = scarcity_beq; beq_iff = scarcity_beq_iff }

-- The order of the values: "flexible" comes before "scarce".
abbrev pub scarcity_before : Scarcity → Scarcity → Bool
scarcity_before flexible scarce = true
scarcity_before _ _ = false

pub record QueueEntry : Type 0 where
  pub request_id : RequestId
  pub key_id : KeyId
  pub tier : ℕ
  pub weight : ℕ
  pub authorized_legs : List AuthorizedLeg
  pub scarcity : Scarcity

-- `set(xs)`
abbrev pub distinct : List ℕ → List ℕ
distinct [] = []
distinct (x ∷ xs) = let rest = distinct xs in if contains x xs then rest else x ∷ rest

-- `QueueEntry.__post_init__`.
unfoldable pub queue_entry : RequestId → KeyId → ℕ → ℕ → List AuthorizedLeg → Result QueueEntry
queue_entry request_id key_id tier weight legs = do
  raise_if (ltb weight 1 || ltb 64 weight) value_error
  raise_if (null legs) value_error
  raise_if (not (unique (map (λ (leg : AuthorizedLeg). leg.leg_id) legs))) value_error
  ok (record {
    request_id = request_id;
    key_id = key_id;
    tier = tier;
    weight = weight;
    authorized_legs = legs;
    scarcity =
        if length (distinct (map (λ (leg : AuthorizedLeg). leg.account_id) legs)) == 1
        then scarce
        else flexible;
  })

-- `==` of two entries.
abbrev pub ids : QueueEntry → List ℕ
ids e = e.request_id ∷ e.key_id ∷ e.tier ∷ e.weight ∷ []

abbrev pub entry_beq : QueueEntry → QueueEntry → Bool
entry_beq a b =
    same (ids a) (ids b) && same a.authorized_legs b.authorized_legs && same a.scarcity b.scarcity

pub record Queued : Type 0 where
  pub entry : QueueEntry
  pub sequence : ℕ

abbrev pub ClassKey : Type 0
ClassKey = ℕ × Scarcity

abbrev pub KeyKey : Type 0
KeyKey = ClassKey × KeyId

pub record FairnessState : Type 0 where
  pub class_deficits : Dict ClassKey ℕ
  pub class_cursors : Dict ℕ Scarcity
  pub key_deficits : Dict KeyKey ℕ
  pub key_cursors : Dict ClassKey KeyId
  pub higher_grant_streak : ℕ

abbrev pub no_fairness : FairnessState
no_fairness = record {
  class_deficits = [];
  class_cursors = [];
  key_deficits = [];
  key_cursors = [];
  higher_grant_streak = 0;
}

abbrev pub class_before : ClassKey → ClassKey → Bool
class_before (t, s) (u, r) = ltb t u || t == u && scarcity_before s r

abbrev pub key_before : KeyKey → KeyKey → Bool
key_before (c, k) (d, j) = class_before c d || same c d && ltb k j

-- `_encode_state`.
unfoldable pub encode_state :
    Dict ClassKey ℕ → Dict ℕ Scarcity → Dict KeyKey ℕ → Dict ClassKey KeyId → ℕ → FairnessState
encode_state class_deficits class_cursors key_deficits key_cursors streak = record {
  class_deficits = sort_items class_before class_deficits;
  class_cursors = sort_items ltb class_cursors;
  key_deficits = sort_items key_before key_deficits;
  key_cursors = sort_items class_before key_cursors;
  higher_grant_streak = streak;
}
