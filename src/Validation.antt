-- ===== src/Validation.antt =====
-- runtime/scripts/validate_rls.py: a check of a running database, which adds two tenants with a market each
-- and counts the markets that sessions see. Adding them is the superuser's, so no policy is asked. Its
-- printing is left out; an exit code is a number.
pub mod Passing
use argus_services.Prelude.{
  ℕ, Bool, true, not, ◌&&◌, ◌==◌, ltb, String, none, some, List, [], ◌∷◌, ◌++◌, pos, count,
  if◌then◌else◌,
}
use argus_services.Domain.Enums.{root_admin}
use argus_services.Domain.Json.{end}
use argus_services.Domain.Models.{Market, Tenant}
use argus_services.World.{Db}
use argus_services.World.Session.{Context, allows, no_context, set_session_context}

-- The ids that `uuid4` gives, the texts made of them, and the time of the rows.
pub record ValidationDraws : Type 0 where
  pub tenant_a : ℕ
  pub tenant_b : ℕ
  pub market_a : ℕ
  pub market_b : ℕ
  pub slug_a : String
  pub slug_b : String
  pub now : ℕ

-- With the defaults of the columns.
abbrev pub inserted_tenant : ℕ → ℕ → String → String → Tenant
inserted_tenant now id name slug = record {
  id = id;
  name = name;
  slug = slug;
  aggregation_window_secs = 300;
  weird_threshold = pos 2;
  warning_threshold = pos 5;
  settings = end;
  updated_at = now;
}

abbrev pub inserted_market : ℕ → ℕ → String → Market
inserted_market id tenant_id name = record {
  id = id;
  tenant_id = tenant_id;
  name = name;
  timezone = "UTC";
  deleted_at = none;
}

unfoldable pub insert_rows : ValidationDraws → Db → Db
insert_rows d db = record db {
  tenants =
      db.tenants
      ++ inserted_tenant d.now d.tenant_a "Tenant A" d.slug_a
        ∷ inserted_tenant d.now d.tenant_b "Tenant B" d.slug_b
        ∷ [];
  markets =
      db.markets
      ++ inserted_market d.market_a d.tenant_a "Market A"
        ∷ inserted_market d.market_b d.tenant_b "Market B"
        ∷ [];
}

-- `SELECT COUNT(*) FROM markets WHERE test`, under the policies of a session.
unfoldable pub count_markets : Context → (Market → Bool) → Db → ℕ
count_markets c test db = count (λ (m : Market). allows c m.tenant_id && test m) db.markets

abbrev pub context_a : ValidationDraws → Context
context_a d = set_session_context no_context (some d.tenant_a) none

abbrev pub context_root : Context
context_root = set_session_context no_context none (some root_admin)

-- The four counts, on the tables with the new rows.
unfoldable pub check_counts : ValidationDraws → Db → ℕ
check_counts d db =
    if not (count_markets no_context (λ m. true) db == 0)
    then 1
    else if not (count_markets (context_a d) (λ m. m.tenant_id == d.tenant_b) db == 0)
    then 1
    else if not (count_markets (context_a d) (λ m. true) db == 1)
    then 1
    else if ltb (count_markets context_root (λ m. true) db) 2
    then 1
    else 0

unfoldable pub validate_rls : ValidationDraws → Db → ℕ × Db
validate_rls d db = (check_counts d (insert_rows d db), insert_rows d db)
