-- ===== src/Worker/Requeue/Partition.antt =====
-- Each stuck job is accounted for once.
use mathlib.Core.Path.{subst}
use persistent_memory_stack.Prelude.{
  Bool, Bool-cases, Elem, List, Option, Option-cases, [], any, arith, default_to, false, head?, inl,
  inr, none, refl, some, true, ℕ, ◌+◌, ◌↔◌, ◌∷◌, ◌≡◌, ◌≢◌,
}
use persistent_memory_stack.Prelude.Text.{Text, codes, text_eq, text_eq_iff, text_eq_refl}
use persistent_memory_stack.Worker.Requeue.{
  DocumentRow, DocumentVersion, IngestJobData, ReconcilePlan, SourceRow, StuckJob, add_job,
  decide_hash, decide_ingest_action, finalize_version, from_source, payload_of, plan_requeue,
  rebuilt, truthy, unchanged,
}

-- The payload of a job: its ids are the job's, the source's and that of the source's first document,
-- and the source's id, key and title are there and not ''.
abbrev pub IsPayload : StuckJob → IngestJobData → Type 0
IsPayload job p =
    (src : SourceRow) × (doc : DocumentRow) × (rest : List DocumentRow) × (job.source ≡ some src)
    × (src.documents ≡ doc ∷ rest)
    × (job.source_id ≡ some p.source_id)
    × (p.source_id ≢ [])
    × (src.minio_object_key ≡ some p.minio_object_key)
    × (p.minio_object_key ≢ [])
    × (src.title ≡ some p.filename)
    × (p.filename ≢ [])
    × (p.document_id ≡ doc.id)
    × (p.mime_type ≡ default_to (codes "application/octet-stream") doc.mime_type)
    × (p.ingest_job_id ≡ job.id)
    × (p.team_id ≡ job.team_id)
    × (p.project ≡ job.project)
    × (p.session_id ≡ job.session_id)

-- The payloads in the order of their jobs, the number of live jobs, and the number of jobs that are
-- not live and have no payload.
pub data IsPlan (live : List Text) : List StuckJob → List IngestJobData → ℕ → ℕ → Type 0 where
  no_jobs : IsPlan live [] [] 0 0
  is_live :
      {job : StuckJob} {jobs : List StuckJob} {ps : List IngestJobData} {n m : ℕ}
      → Elem job.id live
      → IsPlan live jobs ps n m
      → IsPlan live (job ∷ jobs) ps (n + 1) m
  is_lost :
      {job : StuckJob} {jobs : List StuckJob} {ps : List IngestJobData} {n m : ℕ}
      → ¬ Elem job.id live
      → ((p : IngestJobData) → ¬ IsPayload job p)
      → IsPlan live jobs ps n m
      → IsPlan live (job ∷ jobs) ps n (m + 1)
  is_queued :
      {job : StuckJob} {jobs : List StuckJob} {ps : List IngestJobData} {n m : ℕ}
      (p : IngestJobData)
      → ¬ Elem job.id live
      → IsPayload job p
      → IsPlan live jobs ps n m
      → IsPlan live (job ∷ jobs) (p ∷ ps) n m

any-Elem :
    (id : Text) (live : List Text) → (any (λ other. text_eq other id) live ≡ true) ↔ Elem id live
any-Elem id [] = ground arith
any-Elem id (other ∷ live) = ground (arith, text_eq_iff other id, any-Elem id live)

truthy_iff : (o : Option Text) (t : Text) → (truthy o ≡ some t) ↔ ((o ≡ some t) × (t ≢ []))
truthy_iff none t = ((λ h. absurd (cc)), λ (h, _). absurd (cc))
truthy_iff (some []) t = ((λ h. absurd (cc)), λ (h, n). absurd (n (cc)))
truthy_iff (some (c ∷ s)) t = ((λ h. (h, λ e. cc)), λ (h, _). h)

rebuilt-IsPayload :
    (job : StuckJob) (src : SourceRow) (p : IngestJobData)
    → job.source ≡ some src
    → (a b c : Option Text) → truthy job.source_id ≡ a
    → truthy src.minio_object_key ≡ b
    → truthy src.title ≡ c
    → (docs : List DocumentRow) → src.documents ≡ docs
    → rebuilt job a b c (head? docs) ≡ some p
    → IsPayload job p
unfolding rebuilt
rebuilt-IsPayload job src p e (some a) (some b) (some c) ea eb ec (doc ∷ docs) ed h =
    let (sa, na) = (truthy_iff job.source_id a).0 ea in
    let (sb, nb) = (truthy_iff src.minio_object_key b).0 eb in
    let (sc, nc) = (truthy_iff src.title c).0 ec in
    let payload : record {
      ingest_job_id = job.id;
      source_id = a;
      document_id = doc.id;
      team_id = job.team_id;
      project = job.project;
      minio_object_key = b;
      mime_type = default_to (codes "application/octet-stream") doc.mime_type;
      filename = c;
      session_id = job.session_id;
    }
        ≡ p =
      cc h in
    subst (IsPayload job) payload
      (src, doc, docs, e, ed, sa, na, sb, nb, sc, nc, refl, refl, refl, refl, refl, refl)
rebuilt-IsPayload job src p e none b c ea eb ec docs ed h = absurd (cc)
rebuilt-IsPayload job src p e (some a) none c ea eb ec docs ed h = absurd (cc)
rebuilt-IsPayload job src p e (some a) (some b) none ea eb ec docs ed h = absurd (cc)
rebuilt-IsPayload job src p e (some a) (some b) (some c) ea eb ec [] ed h = absurd (cc)

payload_of-IsPayload :
    (job : StuckJob) (p : IngestJobData) → payload_of job ≡ some p → IsPayload job p
unfolding payload_of from_source
payload_of-IsPayload job p h = elim (Option-cases job.source) [
  | inl e ↦ absurd (cc (rw e at h))
  | inr (src, e) ↦ rebuilt-IsPayload job src p e _ _ _ refl refl refl src.documents refl (rw e at h)
]

IsPayload-payload_of :
    (job : StuckJob) (p : IngestJobData) → IsPayload job p → payload_of job ≢ none
unfolding payload_of from_source rebuilt
IsPayload-payload_of job p (src, doc, docs, e, ed, sa, na, sb, nb, sc, nc, _, _, _, _, _, _) h =
    let ea = (truthy_iff job.source_id p.source_id).1 (sa, na) in
    let eb = (truthy_iff src.minio_object_key p.minio_object_key).1 (sb, nb) in
    let ec = (truthy_iff src.title p.filename).1 (sc, nc) in
    absurd (cc (rw (e, ed, ea, eb, ec) at h))

add_job-IsPlan :
    (job : StuckJob) (jobs : List StuckJob) (live : List Text) (plan : ReconcilePlan)
    → IsPlan live jobs plan.payloads plan.skipped_live plan.skipped_unreconstructable
    → (b : Bool) (payload : Option IngestJobData) → any (λ id. text_eq id job.id) live ≡ b
    → payload_of job ≡ payload
    → let more = add_job b payload plan in
      IsPlan live (job ∷ jobs) more.payloads more.skipped_live more.skipped_unreconstructable
unfolding add_job
add_job-IsPlan job jobs live plan h true payload e f = is_live ((any-Elem job.id live).0 e) h
add_job-IsPlan job jobs live plan h false none e f =
    is_lost (λ m. cc (e, (any-Elem job.id live).1 m)) (λ p k. IsPayload-payload_of job p k f) h
add_job-IsPlan job jobs live plan h false (some p) e f =
    is_queued p (λ m. cc (e, (any-Elem job.id live).1 m)) (payload_of-IsPayload job p f) h

-- The payloads are, in the order of the stuck jobs, those of the jobs that have no live job in the
-- queue and whose rows suffice for one, each spelled out from its rows; the first number counts the
-- jobs that are live in the queue, and the second those that are not, and have no payload.
pub plan_requeue-IsPlan :
    (jobs : List StuckJob) (live : List Text)
    → let plan = plan_requeue jobs live in
      IsPlan live jobs plan.payloads plan.skipped_live plan.skipped_unreconstructable
unfolding plan_requeue
plan_requeue-IsPlan [] live = no_jobs
plan_requeue-IsPlan (job ∷ jobs) live =
    add_job-IsPlan job jobs live (plan_requeue jobs live) (plan_requeue-IsPlan jobs live) _
      (payload_of job) refl refl

-- After a successful ingest of some content, ingesting the same content again is found to be
-- unchanged; and the version number goes up exactly when the stored hash was another one.
decide_ingest_action-finalize_version :
    (prior : DocumentVersion) (new : Text)
    → new ≢ []
    → let action = decide_ingest_action prior.content_hash new in
      let stored = finalize_version new action prior.version_number in
      (decide_ingest_action stored.content_hash new ≡ unchanged)
      × ((stored.version_number ≡ prior.version_number + 1)
          ↔ ((old : Text) × (prior.content_hash ≡ some old) × (old ≢ []) × (old ≢ new)))
unfolding decide_ingest_action decide_hash finalize_version
decide_ingest_action-finalize_version prior [] full = absurd (full refl)
decide_ingest_action-finalize_version prior (d ∷ new) full = by_hash prior.content_hash
  where
    again : decide_hash (some (d ∷ new)) (d ∷ new) ≡ unchanged
    again = rw (text_eq_refl (d ∷ new)) refl

    by_hash :
        (hash : Option Text)
        → let action = decide_hash (truthy hash) (d ∷ new) in
          let stored = finalize_version (d ∷ new) action prior.version_number in
          (decide_hash (truthy stored.content_hash) (d ∷ new) ≡ unchanged)
          × ((stored.version_number ≡ prior.version_number + 1)
              ↔ ((old : Text) × (hash ≡ some old) × (old ≢ []) × (old ≢ d ∷ new)))
    by_hash none = (again, ((λ h. absurd (omega arith)), λ (o, e, _, _). absurd (cc)))
    by_hash (some []) = (again, ((λ h. absurd (omega arith)), λ (o, e, n, _). absurd (n (cc))))
    by_hash (some (c ∷ s)) = elim (Bool-cases (text_eq (c ∷ s) (d ∷ new))) [
      | inl e ↦
          rw (e, decide_hash)
            (
              again,
              (
                (λ h. absurd (omega arith)),
                λ (o, f, _, n). absurd (n (cc (f, (text_eq_iff _ _).0 e))),
              ),
            )
      | inr e ↦
          rw (e, decide_hash)
            (
              again,
              ((λ h. (c ∷ s, refl, (λ q. cc), λ q. cc (e, (text_eq_iff _ _).1 q))), λ h. refl),
            )
    ]
