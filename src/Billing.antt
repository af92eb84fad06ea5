-- ===== src/Billing.antt =====
-- apps/billing/models.py and apps/billing/selectors.py: a company's current subscription, the limits
-- that it sets, and whether it gives access. JSON objects of limits are association lists.
use brandy_manager_back.Prelude.{
  ℕ, Option, none, some, List, [], ◌∷◌, Bool, true, false, not, ◌&&◌, ◌||◌, ltb, leb, ◌==◌,
  if◌then◌else◌, select, first, sort_by,
}
use brandy_manager_back.Table.{Row, get}

pub data LimitKey : Type 0 where
  companies managed_companies sites zones users devices playlists channels : LimitKey

abbrev pub limit_code : LimitKey → ℕ
limit_code LimitKey.companies = 0
limit_code LimitKey.managed_companies = 1
limit_code LimitKey.sites = 2
limit_code LimitKey.zones = 3
limit_code LimitKey.users = 4
limit_code LimitKey.devices = 5
limit_code LimitKey.playlists = 6
limit_code LimitKey.channels = 7

-- A value is an integer or `null`.
abbrev pub Limits : Type 0
Limits = List (LimitKey × Option ℕ)

-- `limits.get(key)`, without telling a missing key from `null`, and `key in limits`
unfoldable pub get_limit : LimitKey → Limits → Option ℕ
get_limit k [] = none
get_limit k ((j, v) ∷ limits) =
    let rest = get_limit k limits in if limit_code j == limit_code k then v else rest

unfoldable pub has_limit : LimitKey → Limits → Bool
has_limit k [] = false
has_limit k ((j, v) ∷ limits) =
    let rest = has_limit k limits in if limit_code j == limit_code k then true else rest

pub data SubscriptionStatus : Type 0 where
  trial active past_due suspended cancelled expired : SubscriptionStatus

pub record Plan : Type 0 where
  pub id : ℕ
  -- `features["limits"]`, empty where it is missing
  pub limits : Limits

pub record Subscription : Type 0 where
  pub id : ℕ
  pub company : ℕ
  pub plan : Option ℕ
  pub status : SubscriptionStatus
  pub started_at : ℕ
  pub created_at : ℕ
  pub trial_ends_at : Option ℕ
  -- `plan_snapshot["limits"]` and `plan_snapshot["features"]["limits"]`, empty where missing
  pub snapshot_limits : Limits
  pub snapshot_feature_limits : Limits

instance abbrev pub plan_row : Row Plan
plan_row = record { pk = λ p. p.id }

-- `normalize_limits`
unfoldable pub normalize_limits : Limits → Limits
unfolding get_limit has_limit
normalize_limits limits =
    if not (has_limit LimitKey.companies limits) && has_limit LimitKey.managed_companies limits
    then (LimitKey.companies, get_limit LimitKey.managed_companies limits) ∷ limits
    else limits

-- the truth value of a JSON object
abbrev pub is_empty : Limits → Bool
is_empty [] = true
is_empty (l ∷ ls) = false

abbrev pub plan_limits : List Plan → Option ℕ → Limits
plan_limits plans none = []
plan_limits plans (some k) = elim (get k plans) [ none ↦ [] | some p ↦ p.limits ]

unfoldable pub effective_limits : List Plan → Subscription → Limits
unfolding normalize_limits
effective_limits plans s =
    if not (is_empty s.snapshot_limits)
    then normalize_limits s.snapshot_limits
    else if not (is_empty s.snapshot_feature_limits)
    then normalize_limits s.snapshot_feature_limits
    else if not (is_empty (plan_limits plans s.plan))
    then normalize_limits (plan_limits plans s.plan)
    else []

-- `order_by("-started_at", "-created_at")`
abbrev pub newer_subscription : Subscription → Subscription → Bool
newer_subscription a b =
    ltb b.started_at a.started_at || a.started_at == b.started_at && ltb b.created_at a.created_at

unfoldable pub get_current_subscription_for_company : List Subscription → ℕ → Option Subscription
unfolding sort_by
get_current_subscription_for_company subscriptions company =
    first (sort_by newer_subscription (select (λ s. s.company == company) subscriptions))

-- `subscription.effective_limits().get(key) if subscription else None`
unfoldable pub company_limit : LimitKey → List Plan → List Subscription → ℕ → Option ℕ
unfolding effective_limits get_current_subscription_for_company get_limit
company_limit key plans subscriptions company =
    elim (get_current_subscription_for_company subscriptions company) [
      | none ↦ none
      | some s ↦ get_limit key (effective_limits plans s)
    ]

abbrev pub some_gt : Option ℕ → ℕ → Bool
some_gt none at = false
some_gt (some x) at = ltb at x

unfoldable pub has_functional_access : ℕ → Subscription → Bool
has_functional_access at s = elim s.status [
  | SubscriptionStatus.active ↦ true
  | SubscriptionStatus.trial ↦ some_gt s.trial_ends_at at
  | _ ↦ false
]

-- `limit is not None and count >= limit`
abbrev pub reaches : ℕ → Option ℕ → Bool
reaches count none = false
reaches count (some limit) = leb limit count
