-- ===== src/Housing/Policy/Order.antt =====
-- The keys that `select_actions` of app/domain/housing/policy.py sorts by.
use finshield_ai.Base.{
  ◌≡◌, refl, Bool, true, false, ◌&&◌, ◌||◌, List, [], ◌∷◌, map, sorted, ap, ap₂, ℕ, ltb, leb,
  nat_beq, ok, sorted-map, lex_total, lex_trans,
}
use finshield_ai.Housing.Codes.{ActionCode, ActionCode-discrete, stage_eq, check_eq, action_code_eq}
use finshield_ai.Housing.Tables.{action_order, action_policies}
use finshield_ai.Housing.Policy.{index_of, Keyed, keyed, all_keyed, key_before, action_of}

-- The place of an action among those of its priority.
unfoldable pub rank : ActionCode → ℕ
rank ActionCode.check_registry = 0
rank ActionCode.verify_owner_identity = 1
rank ActionCode.check_tax_arrears = 2
rank ActionCode.report_move_in = 3
rank ActionCode.get_confirmed_date = 4
rank ActionCode.keep_opposing_power = 5
rank ActionCode.apply_lease_registration_order = 6
rank ActionCode.join_deposit_guarantee = 7
rank ActionCode.check_victim_support = 8

-- The more urgent one first, and of two that are as urgent the one with the lower rank.
unfoldable pub is_before : ActionCode → ActionCode → Bool
is_before a b =
    let p = (action_policies a).priority in
    let q = (action_policies b).priority in ltb p q || (nat_beq p q && leb (rank a) (rank b))

abbrev pub keyed_of : ActionCode → Keyed
keyed_of c = record { code = c; priority = (action_policies c).priority; position = rank c }

index_of-rank : (c : ActionCode) → index_of c action_order ≡ ok (rank c)
unfolding index_of action_order rank ActionCode-discrete
index_of-rank ActionCode.check_registry = refl
index_of-rank _ = refl

pub all_keyed-keyed_of : (cs : List ActionCode) → all_keyed cs ≡ ok (map keyed_of cs)
unfolding all_keyed keyed
all_keyed-keyed_of [] = refl
all_keyed-keyed_of (c ∷ cs) = rw (index_of-rank c, all_keyed-keyed_of cs) refl

pub is_before_total : (a b : ActionCode) → is_before a b ≡ false → is_before b a ≡ true
unfolding is_before
is_before_total a b h =
    lex_total (action_policies a).priority (action_policies b).priority (rank a) (rank b) h

pub is_before_trans :
    (a b c : ActionCode) → is_before a b ≡ true → is_before b c ≡ true → is_before a c ≡ true
unfolding is_before
is_before_trans a b c h k =
    lex_trans (action_policies a).priority (action_policies b).priority (action_policies c).priority
      (rank a) (rank b) (rank c) h k

pub codes-action_of : (cs : List ActionCode) → map (λ a. a.code) (map action_of cs) ≡ cs
unfolding action_of
codes-action_of [] = refl
codes-action_of (c ∷ cs) = ap₂ ◌∷◌ refl (codes-action_of cs)

pub actions-keyed_of :
    (cs : List ActionCode) → map (λ k. action_of k.code) (map keyed_of cs) ≡ map action_of cs
actions-keyed_of [] = refl
actions-keyed_of (c ∷ cs) = ap (λ actions. action_of c ∷ actions) (actions-keyed_of cs)

pub sorted-keyed_of :
    (cs : List ActionCode)
    → sorted key_before (map keyed_of cs) ≡ map keyed_of (sorted is_before cs)
unfolding key_before is_before
sorted-keyed_of cs = sorted-map keyed_of key_before cs
