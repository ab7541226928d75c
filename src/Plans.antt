-- ===== src/Plans.antt =====
-- The plans and their limits (src/lib/constants/plans.ts, src/lib/types/plans.ts). A limit of -1,
-- which stands for no limit, is `none`.
use uppity.Base.{
  ℕ, ◌+◌, ◌*◌, String, Bool, true, false, not, ◌||◌, Option, none, some, List, [], ◌∷◌, is_none,
  or_default, if◌then◌else◌,
}
use uppity.Tables.{PlanId, free_id, uppity_id, dedicated_id, enterprise_id, unlisted_id}

pub data ChannelType : Type 0 where
  email slack discord webhook : ChannelType

pub data ApiAccessLevel : Type 0 where
  no_access read_access full_access : ApiAccessLevel

pub record PlanLimits : Type 0 where
  pub monitors : Option ℕ
  pub check_interval_seconds : ℕ
  pub status_pages : Option ℕ
  pub retention_days : Option ℕ
  pub team_members : Option ℕ
  pub notification_channels : List ChannelType
  pub custom_domains : Bool
  pub api_access : ApiAccessLevel
  pub api_requests_per_minute : Option ℕ
  pub sso : Bool
  pub audit_logs : Bool

pub record Plan : Type 0 where
  pub id : PlanId
  pub name : String
  pub monthly_price_cents : Option ℕ
  pub annual_price_cents : Option ℕ
  pub limits : PlanLimits

abbrev pub free_plan : Plan
free_plan = record {
  id = free_id;
  name = "Free";
  monthly_price_cents = some 0;
  annual_price_cents = some 0;
  limits = record {
    monitors = some 20;
    check_interval_seconds = 120;
    status_pages = some 1;
    retention_days = some 30;
    team_members = some 5;
    notification_channels = email ∷ [];
    custom_domains = false;
    api_access = read_access;
    api_requests_per_minute = some 60;
    sso = false;
    audit_logs = false;
  };
}

abbrev pub uppity_limits : PlanLimits
uppity_limits = record {
  monitors = some 50;
  check_interval_seconds = 30;
  status_pages = none;
  retention_days = some 365;
  team_members = none;
  notification_channels = email ∷ slack ∷ discord ∷ webhook ∷ [];
  custom_domains = true;
  api_access = full_access;
  api_requests_per_minute = some 600;
  sso = true;
  audit_logs = true;
}

abbrev pub uppity_plan : Plan
uppity_plan = record {
  id = uppity_id;
  name = "Uppity";
  monthly_price_cents = some 1200;
  annual_price_cents = some 12000;
  limits = uppity_limits;
}

abbrev pub self_hosted_limits : PlanLimits
self_hosted_limits = record uppity_limits {
  monitors = none;
  retention_days = none;
  api_requests_per_minute = none;
}

abbrev pub dedicated_plan : Plan
dedicated_plan = record {
  id = dedicated_id;
  name = "Dedicated";
  monthly_price_cents = some 29900;
  annual_price_cents = some 299000;
  limits = record uppity_limits {
    monitors = some 2000;
    retention_days = none;
    api_requests_per_minute = none;
  };
}

abbrev pub enterprise_plan : Plan
enterprise_plan = record {
  id = enterprise_id;
  name = "Enterprise";
  monthly_price_cents = none;
  annual_price_cents = none;
  limits = dedicated_plan.limits;
}

-- `PLANS[id]`
abbrev pub plans : PlanId → Option Plan
plans free_id = some free_plan
plans uppity_id = some uppity_plan
plans dedicated_id = some dedicated_plan
plans enterprise_id = some enterprise_plan
plans unlisted_id = none

-- `PLANS[id] ?? PLANS[DEFAULT_PLAN_ID]`
abbrev pub plan_or_free : PlanId → Plan
plan_or_free id = or_default (plans id) free_plan

-- `BLOCK_ELIGIBLE_PLAN_IDS.has`
abbrev pub is_block_eligible : PlanId → Bool
is_block_eligible uppity_id = true
is_block_eligible _ = false

abbrev pub monitor_block_size : ℕ
monitor_block_size = 50

abbrev pub max_monitor_blocks : ℕ
max_monitor_blocks = 40

abbrev raised : ℕ → Option ℕ → Option ℕ
raised blocks none = none
raised blocks (some n) = some (n + monitor_block_size * blocks)

-- `applyCapacityBlocks`; the number of blocks is not negative (`subscription_blocks_non_negative`)
abbrev pub apply_capacity_blocks : Plan → ℕ → PlanLimits
apply_capacity_blocks plan blocks =
    if not (is_block_eligible plan.id) || is_none plan.limits.monitors
    then plan.limits
    else record plan.limits { monitors = raised blocks plan.limits.monitors }
