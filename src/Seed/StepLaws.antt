-- ===== src/Seed/StepLaws.antt =====
-- The steps of runtime/scripts/seed.py one by one.
use argus_services.Prelude.{
  ℕ, Bool, true, false, ◌≡◌, refl, subst, ==_refl, Option, none, some, List, [], ◌∷◌, ◌++◌,
  find?-append_last, All, Bool-cases, inl, inr, arith, if◌then◌else◌,
}
use argus_services.Exec.{Exn, ok, raised, runtime_error}
use argus_services.Domain.Models.{
  TenantUser, Market, Camera, RegionOfInterest, ContextMode, ContextModeCameraAssignment, Lens,
  Rule, RuleRegionMapping, NotificationConfig,
}
use argus_services.World.{Db}
use argus_services.Seed.Growth.{Keeps, Grows, same, more, IsStep}
use argus_services.Seed.{SeedDraws}
use argus_services.Seed.Steps.{
  ensure_market, ensure_camera, ensure_region, ensure_mode, ensure_assignment, ensure_lens,
  ensure_rule, ensure_user, ensure_config, is_root_admin, steps,
}

-- A list with at most one row more.
abbrev added : {A : Type 0} → List A → Option A → List A
added xs none = xs
added xs (some x) = xs ++ x ∷ []

added-Keeps : {A : Type 0} (xs : List A) (x : Option A) → Keeps xs (added xs x)
added-Keeps xs none = same xs
added-Keeps xs (some x) = more xs (x ∷ [])

adding :
    (a : Db) (m : Option Market) (c : Option Camera) (r : Option RegionOfInterest)
    (k : Option ContextMode) (g : Option ContextModeCameraAssignment) (l : Option Lens)
    (u : Option Rule) (p : Option RuleRegionMapping) (v : Option TenantUser)
    (n : Option NotificationConfig)
    → Grows a (record a {
      markets = added a.markets m;
      cameras = added a.cameras c;
      regions = added a.regions r;
      context_modes = added a.context_modes k;
      assignments = added a.assignments g;
      lenses = added a.lenses l;
      rules = added a.rules u;
      rule_regions = added a.rule_regions p;
      users = added a.users v;
      configs = added a.configs n;
    })
adding a m c r k g l u p v n = record {
  tenants = refl;
  markets = added-Keeps a.markets m;
  cameras = added-Keeps a.cameras c;
  regions = added-Keeps a.regions r;
  modes = added-Keeps a.context_modes k;
  assignments = added-Keeps a.assignments g;
  lenses = added-Keeps a.lenses l;
  rules = added-Keeps a.rules u;
  users = added-Keeps a.users v;
  configs = added-Keeps a.configs n;
}

-- What holds of the rows with the new one holds of the rows that the step returned.
returned :
    (P : Db → Type 0) (refused : Bool) (e : Exn) {b c : Db}
    → (if refused then raised e else ok c) ≡ ok b
    → P c
    → P b
returned P refused e {b = b} {c = c} h p = elim (Bool-cases refused) [
  | inl yes_it_is ↦ ground (arith, rw yes_it_is at h)
  | inr no_it_is ↦ (let eq : c ≡ b = ground (arith, rw no_it_is at h) in subst P eq p)
]

ensure_market-IsStep : (t : ℕ) → IsStep (ensure_market t)
ensure_market-IsStep t = record {
  adds = λ {a} {b} h.
      returned (λ x. Grows a x × ((ensure_market t).is_there x ≡ true)) false (runtime_error "") h
        (
          adding a (some _) none none none none none none none none none,
          find?-append_last _ a.markets _ refl,
        );
  stays = λ g h. g.markets _ h;
}

ensure_camera-IsStep : (t : ℕ) → IsStep (ensure_camera t)
ensure_camera-IsStep t = record {
  adds = λ {a} {b} h.
      returned (λ x. Grows a x × ((ensure_camera t).is_there x ≡ true)) _ _ h
        (
          adding a none (some _) none none none none none none none none,
          find?-append_last _ a.cameras _ refl,
        );
  stays = λ g h. g.cameras _ h;
}

ensure_region-IsStep : (t : ℕ) → IsStep (ensure_region t)
ensure_region-IsStep t = record {
  adds = λ {a} {b} h.
      returned (λ x. Grows a x × ((ensure_region t).is_there x ≡ true)) false (runtime_error "") h
        (
          adding a none none (some _) none none none none none none none,
          find?-append_last _ a.regions _ refl,
        );
  stays = λ g h. g.regions _ h;
}

ensure_mode-IsStep : (t : ℕ) → IsStep (ensure_mode t)
ensure_mode-IsStep t = record {
  adds = λ {a} {b} h.
      returned (λ x. Grows a x × ((ensure_mode t).is_there x ≡ true)) false (runtime_error "") h
        (
          adding a none none none (some _) none none none none none none,
          find?-append_last _ a.context_modes _ refl,
        );
  stays = λ g h. g.modes _ h;
}

ensure_assignment-IsStep : (s : SeedDraws) (t : ℕ) → IsStep (ensure_assignment s t)
ensure_assignment-IsStep s t = record {
  adds = λ {a} {b} h.
      returned (λ x. Grows a x × ((ensure_assignment s t).is_there x ≡ true)) false
        (runtime_error "") h
        (
          adding a none none none none (some _) none none none none none,
          find?-append_last _ a.assignments _ refl,
        );
  stays = λ g h. g.assignments _ h;
}

ensure_lens-IsStep : (t : ℕ) → IsStep (ensure_lens t)
ensure_lens-IsStep t = record {
  adds = λ {a} {b} h.
      returned (λ x. Grows a x × ((ensure_lens t).is_there x ≡ true)) false (runtime_error "") h
        (
          adding a none none none none none (some _) none none none none,
          find?-append_last _ a.lenses _ refl,
        );
  stays = λ g h. g.lenses _ h;
}

ensure_rule-IsStep : (s : SeedDraws) (t : ℕ) → IsStep (ensure_rule s t)
ensure_rule-IsStep s t = record {
  adds = λ {a} {b} h.
      returned (λ x. Grows a x × ((ensure_rule s t).is_there x ≡ true)) false (runtime_error "") h
        (
          adding a none none none none none none (some _) (some _) none none,
          find?-append_last _ a.rules _ refl,
        );
  stays = λ g h. g.rules _ h;
}

ensure_config-IsStep : (t : ℕ) → IsStep (ensure_config t)
ensure_config-IsStep t = record {
  adds = λ {a} {b} h.
      returned (λ x. Grows a x × ((ensure_config t).is_there x ≡ true)) false (runtime_error "") h
        (
          adding a none none none none none none none none none (some _),
          find?-append_last _ a.configs _ refl,
        );
  stays = λ g h. g.configs _ h;
}

ensure_user-IsStep :
    (is_it : TenantUser → Bool) (user : TenantUser)
    → is_it user ≡ true
    → IsStep (ensure_user is_it user)
ensure_user-IsStep is_it user it_is = record {
  adds = λ {a} {b} h.
      returned (λ x. Grows a x × ((ensure_user is_it user).is_there x ≡ true)) _ _ h
        (
          adding a none none none none none none none none (some _) none,
          find?-append_last is_it a.users user it_is,
        );
  stays = λ g h. g.users _ h;
}

pub steps-IsStep : (s : SeedDraws) (t : ℕ) → All IsStep (steps s t)
steps-IsStep s t = (
  ensure_market-IsStep t,
  (
    ensure_camera-IsStep t,
    (
      ensure_region-IsStep t,
      (
        ensure_mode-IsStep t,
        (
          ensure_assignment-IsStep s t,
          (
            ensure_lens-IsStep t,
            (
              ensure_rule-IsStep s t,
              (
                ensure_user-IsStep is_root_admin _ refl,
                (
                  ensure_user-IsStep _ _ (==_refl t),
                  (ensure_user-IsStep _ _ (==_refl t), (ensure_config-IsStep t, tt)),
                ),
              ),
            ),
          ),
        ),
      ),
    ),
  ),
)
