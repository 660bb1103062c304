-- ===== src/Scheduler/FanOut.antt =====
-- internal/scheduler/scheduler.go, dispatch: the jobs of one round.
use pulse_pager.Prelude.{
  ℕ, ◌/◌, ◌≡◌, refl, ap, Bool, true, List, [], ◌∷◌, ◌++◌, map, String, arith, ltb, length,
  Bool-cases, inl, inr, codes, sub_ℕ, format_int, format_int-injective, format_signed,
  format_signed-injective, ◌∙◌, format_int-IsDigit, digits-cut, keep_where, ◌≢◌,
}
use pulse_pager.Domain.{Time, Monitor, MonitorType, second}
use pulse_pager.Scheduler.{
  CheckJob, job_for, job_id_of, produce_all, dispatch, regions_of, default_region, unix_epoch,
}

-- The regions that a round of a monitor is to reach.
abbrev pub expected_regions : MonitorType → List String → List String
expected_regions type [] = default_region ∷ []
expected_regions MonitorType.http (r ∷ rs) = r ∷ rs
expected_regions MonitorType.ssl (r ∷ rs) = r ∷ []

-- A round of an http monitor reaches each of its regions, one of an ssl monitor the first only,
-- and the default region stands in for an empty list.
pub regions_of-expected_regions :
    (type : MonitorType) (listed : List String)
    → (regions_of type listed ≡ expected_regions type listed) × (regions_of type listed ≢ [])
unfolding regions_of
regions_of-expected_regions MonitorType.http [] = (refl, ground arith)
regions_of-expected_regions MonitorType.http (r ∷ rs) = (refl, ground arith)
regions_of-expected_regions MonitorType.ssl [] = (refl, ground arith)
regions_of-expected_regions MonitorType.ssl (r ∷ []) = (refl, ground arith)
regions_of-expected_regions MonitorType.ssl (r ∷ q ∷ rs) =
    (rw (more, regions_of) refl, λ e. ground (arith, rw (more, regions_of) at e))
  where
    more : ltb 1 (length (r ∷ q ∷ rs)) ≡ true
    more = ground arith

produce_all_lem :
    (accepts : CheckJob → Bool) (m : Monitor) (at : Time) (rs : List String)
    → produce_all accepts m at rs
      ≡ map (job_for m at) (keep_where (λ r. accepts (job_for m at r)) rs)
unfolding produce_all keep_where
produce_all_lem accepts m at [] = refl
produce_all_lem accepts m at (r ∷ rs) = elim (Bool-cases (accepts (job_for m at r))) [
  | inl taken ↦ rw taken (ap (λ js. job_for m at r ∷ js) (produce_all_lem accepts m at rs))
  | inr lost ↦ rw lost (produce_all_lem accepts m at rs)
]

-- A round's jobs are one for each region of the round that the bus takes, in the order of the
-- regions: a region that fails costs no other region its job.
pub dispatch-jobs :
    (accepts : CheckJob → Bool) (m : Monitor) (at scheduled_for : Time)
    → (dispatch accepts m at scheduled_for).jobs
      ≡ map
          (job_for m at)
          (keep_where (λ r. accepts (job_for m at r)) (regions_of m.type m.regions))
unfolding dispatch
dispatch-jobs accepts m at scheduled_for =
    produce_all_lem accepts m at (regions_of m.type m.regions)

-- The job that a worker is to get for a region.
abbrev pub wanted_job : Monitor → Time → String → CheckJob
wanted_job m at region = record {
  job_id =
      format_int m.id
      ++ (b':' ∷ (codes region ++ (b':' ∷ format_signed (sub_ℕ (at / second) unix_epoch))));
  org_id = m.org_id;
  region = region;
  scheduled_at = at;
  monitor = m;
}

-- The jobs of a round: one for each region that it is to reach and whose job the bus takes.
abbrev pub wanted_jobs : (CheckJob → Bool) → Monitor → Time → List CheckJob
wanted_jobs accepts m at =
    keep_where accepts (map (wanted_job m at) (expected_regions m.type m.regions))

keep_where-map :
    (accepts : CheckJob → Bool) (f : String → CheckJob) (rs : List String)
    → map f (keep_where (λ r. accepts (f r)) rs) ≡ keep_where accepts (map f rs)
unfolding keep_where
keep_where-map accepts f [] = refl
keep_where-map accepts f (r ∷ rs) = elim (Bool-cases (accepts (f r))) [
  | inl taken ↦ rw taken (ap (λ js. f r ∷ js) (keep_where-map accepts f rs))
  | inr lost ↦ rw lost (keep_where-map accepts f rs)
]

pub dispatch-wanted_jobs :
    (accepts : CheckJob → Bool) (m : Monitor) (at scheduled_for : Time)
    → (dispatch accepts m at scheduled_for).jobs ≡ wanted_jobs accepts m at
dispatch-wanted_jobs accepts m at scheduled_for =
    dispatch-jobs accepts m at scheduled_for
    ∙ ap (λ rs. map (wanted_job m at) (keep_where (λ r. accepts (wanted_job m at r)) rs))
        (regions_of-expected_regions m.type m.regions).0
    ∙ keep_where-map accepts (wanted_job m at) (expected_regions m.type m.regions)

append-cancel : (xs ys zs : List ℕ) → xs ++ ys ≡ xs ++ zs → ys ≡ zs
append-cancel [] ys zs e = e
append-cancel (x ∷ xs) ys zs e = append-cancel xs ys zs (ground arith)

sub_ℕ-injective : (a b c : ℕ) → sub_ℕ a c ≡ sub_ℕ b c → a ≡ b
sub_ℕ-injective a b c e = ground arith

-- In one region, two jobs have the same id only if they are of the same monitor and were sent out
-- in the same second.
pub job_id_of-injective :
    (id id' : ℕ) (region : String) (at at' : Time)
    → job_id_of id region at ≡ job_id_of id' region at'
    → (id ≡ id') × (at / second ≡ at' / second)
job_id_of-injective id id' region at at' e =
    let cut =
      digits-cut (format_int id) (format_int id') _ _ b':' (omega arith) (format_int-IsDigit id)
        (format_int-IsDigit id') e in
    let times = append-cancel (b':' ∷ []) _ _ (append-cancel (codes region) _ _ cut.1) in
    (format_int-injective id id' cut.0, sub_ℕ-injective _ _ _ (format_signed-injective _ _ times))
