-- ===== src/Jobs/Publish/Fallback.antt =====
-- What a request is told by the job that publishes it.
use emp_apps.Base.{
  ℕ, ◌≡◌, ◌⊎◌, refl, sym, ap, subst, ◌∙◌, [], ◌∷◌, ◌++◌, Option, none, some, inl, inr, Bool-cases,
  ◌==◌, list_eq, nat_eq, Result, ok, err,
}
use emp_apps.Base.Text.{Text, js}
use emp_apps.Feeds.{Broadcast}
use emp_apps.Dashboard.{or_empty}
use emp_apps.Jobs.{
  FeedRequest, Outcome, Rails, Server, save_groups, group_by, broadcast, message_of,
}
use emp_apps.Jobs.Quiet.{save_groups-Quiet}
use emp_apps.Jobs.Publish.{
  Reply, Memory, failure, Job, then_on, handled, on_server, raises, save, update, store_reply,
  read_reply, fail_request, execute_fallback,
}
use emp_apps.Jobs.Publish.Rows.{Shows, written-Shows}

module _ (rails : Rails) (refuses : FeedRequest → Server rails → Option Text)
    (works : (user : ℕ) (b : Broadcast) → rails.deliver user b ≡ ok tt) (r : FeedRequest) where
  -- The record in memory is the request's, and what it was read with is what its row shows.
  pub record IsHeld (j : Job rails refuses) : Type 0 where
    pub id : j.memory.row.id ≡ r.id
    pub user_id : j.memory.row.user_id ≡ r.user_id
    pub shown : Shows r.id j.memory.saved.status j.server.requests

  -- One message for the request, whose row has the status that it tells.
  abbrev pub Told : Server rails → Result (Unit {0}) × Job rails refuses → Type 0
  Told s x =
      (x.0 ≡ ok tt)
      × (b : Broadcast) × (x.1.server.broadcasts ≡ s.broadcasts ++ (r.user_id, b) ∷ [])
      × (b.feed_request_id ≡ r.id)
      × Shows r.id b.status x.1.server.requests

  -- An exception, and no message so far.
  abbrev Mute : Server rails → Result (Unit {0}) × Job rails refuses → Type 0
  Mute s x = (m : Text) × (x.0 ≡ err m) × (x.1.server.broadcasts ≡ s.broadcasts) × IsHeld x.1

  broadcast-Told :
      (s : Server rails) (user : ℕ) (b : Broadcast) (j : Job rails refuses)
      → user ≡ r.user_id
      → b.feed_request_id ≡ r.id
      → j.server.broadcasts ≡ s.broadcasts
      → Shows r.id b.status j.server.requests
      → Told s (on_server rails refuses (broadcast rails user b) j)
  broadcast-Told s user b j u i k h =
      rw (works user b, broadcast)
        (refl, b, ap (λ bs. bs ++ (user, b) ∷ []) k ∙ ap (λ v. s.broadcasts ++ (v, b) ∷ []) u, i, h)

  -- Saving the record in memory after an assignment.
  abbrev Saved : Server rails → FeedRequest → Result (Unit {0}) × Job rails refuses → Type 0
  Saved s row x =
      ((x.0 ≡ ok tt)
        × (x.1.server.broadcasts ≡ s.broadcasts)
        × IsHeld x.1
        × (x.1.memory.saved.status ≡ row.status))
      ⊎ (Mute s x × ((m : Text) × (raises rails refuses row s ≡ some m) × (x.0 ≡ err m)))

  update-Saved :
      (f : FeedRequest → FeedRequest) (j : Job rails refuses)
      → IsHeld j
      → (f j.memory.row).id ≡ r.id
      → (f j.memory.row).user_id ≡ r.user_id
      → Saved j.server (f j.memory.row) (update rails refuses f j)
  unfolding update
  update-Saved f j h i u = by_case (raises rails refuses (f j.memory.row) j.server) refl
    where
      by_case :
          (o : Option Text)
          → raises rails refuses (f j.memory.row) j.server ≡ o
          → Saved j.server
              (f j.memory.row)
              (save rails refuses o (record j.memory { row = f j.memory.row }) j.server)
      by_case (some m) e =
          inr ((m, refl, refl, record { id = i; user_id = u; shown = h.shown }), (m, e, refl))
      by_case none e = inl (
        refl,
        refl,
        record {
          id = i;
          user_id = u;
          shown =
              written-Shows r.id (record j.memory { row = f j.memory.row }) j.server.requests i
                h.shown;
        },
        refl,
      )

  ok-ne-err : {m : Text} → ¬ (◌≡◌ {A = Result (Unit {0})} (ok tt) (err m))
  ok-ne-err h = cc

  -- The end of `fail_request`: the failure is told, or saving the failed record raises.
  abbrev pub Ends : Server rails → Result (Unit {0}) × Job rails refuses → Type 0
  Ends s x =
      Told s x
      ⊎ ((x.1.server.broadcasts ≡ s.broadcasts)
          × (row : FeedRequest) × (row.status ≡ js "failed")
          × (t : Server rails) × (m : Text) × (raises rails refuses row t ≡ some m)
          × (x.0 ≡ err m))

  failed-Ends :
      (s : Server rails) (m : Text) (j : Job rails refuses)
      → j.server.broadcasts ≡ s.broadcasts
      → IsHeld j
      → Ends s (fail_request rails refuses m j)
  unfolding fail_request
  failed-Ends s m j k h =
      go (update rails refuses failing j) (update-Saved failing j h h.id h.user_id)
    where
      failing : FeedRequest → FeedRequest
      failing q = record q { status = js "failed" }

      go :
          (x : Result (Unit {0}) × Job rails refuses)
          → Saved j.server (failing j.memory.row) x
          → Ends s (
              then_on rails refuses x (λ _.
                on_server rails refuses
                  (broadcast rails j.memory.row.user_id (failure j.memory.row m))))
      go (ok a, t) (inl (e, k', h', st)) = inl (
          broadcast-Told s j.memory.row.user_id (failure j.memory.row m) t h.user_id h.id (k' ∙ k)
            (subst (λ v. Shows r.id v t.server.requests) st h'.shown))
      go (ok a, t) (inr (mute, (m', e, e'))) = absurd (ok-ne-err e')
      go (err n, t) (inl (e, k', h', st)) = absurd (ok-ne-err (sym e))
      go (err n, t) (inr ((n', e, k', h'), (m', raised, e'))) =
          inr (k' ∙ k, failing j.memory.row, refl, j.server, m', raised, e')

  abbrev Tried : Server rails → Result (Unit {0}) × Job rails refuses → Type 0
  Tried s x = Told s x ⊎ Mute s x

  recovered :
      (s : Server rails) (x : Result (Unit {0}) × Job rails refuses)
      → Tried s x
      → Ends s (handled rails refuses x (fail_request rails refuses))
  recovered s (ok a, t) (inl told) = inl told
  recovered s (ok a, t) (inr (m, e, k, h)) = absurd (ok-ne-err e)
  recovered s (err m, t) (inl (e, b, k, i, h)) = absurd (ok-ne-err (sym e))
  recovered s (err m, t) (inr (n, e, k, h)) = failed-Ends s m t k h

  -- The stories, and then the message.
  published-Tried :
      (d : Outcome) (s : Server rails) (memory : Memory) (row : FeedRequest)
      (x : Result (Unit {0}) × Server rails)
      → row.id ≡ r.id
      → row.user_id ≡ r.user_id
      → x.1.broadcasts ≡ s.broadcasts
      → IsHeld (record { server = x.1; memory = memory })
      → memory.saved.status ≡ d.status
      → Tried s (
          then_on rails refuses
            (x.0, record { server = x.1; memory = memory })
            (λ _. on_server rails refuses (broadcast rails row.user_id (message_of row d))))
  published-Tried d s memory row (ok a, t) i u k h e = inl (
      broadcast-Told s row.user_id (message_of row d) (record { server = t; memory = memory }) u i k
        (subst (λ v. Shows r.id v t.requests) e h.shown))
  published-Tried d s memory row (err m, t) i u k h e = inr (m, refl, k, h)

  store-Tried :
      (d : Outcome) (j : Job rails refuses)
      → IsHeld j
      → Tried j.server (store_reply rails refuses d j)
  unfolding store_reply
  store-Tried d j h =
      go (update rails refuses answered j) (update-Saved answered j h h.id h.user_id)
    where
      answered : FeedRequest → FeedRequest
      answered q = record q { job_id = d.job_id; status = d.status }

      go :
          (x : Result (Unit {0}) × Job rails refuses)
          → Saved j.server (answered j.memory.row) x
          → Tried j.server (
              then_on rails refuses x (λ _ t.
                then_on rails refuses
                  (on_server rails refuses
                    (save_groups rails j.memory.row.id (group_by (or_empty d.items)))
                    t)
                  (λ _.
                    on_server rails refuses
                      (broadcast rails j.memory.row.user_id (message_of j.memory.row d)))))
      go (ok a, t) (inl (e, k, h', st)) =
          let (q, k') =
            save_groups-Quiet rails j.memory.row.id (group_by (or_empty d.items)) t.server in
          published-Tried d j.server t.memory j.memory.row
            (save_groups rails j.memory.row.id (group_by (or_empty d.items)) t.server) h.id
            h.user_id (k' ∙ k) (record { id = h'.id; user_id = h'.user_id; shown = rw q h'.shown })
            st
      go (ok a, t) (inr (mute, (m', e, e'))) = absurd (ok-ne-err e')
      go (err n, t) (inl (e, k, h', st)) = absurd (ok-ne-err (sym e))
      go (err n, t) (inr (mute, raised)) = inr mute

  body-Tried :
      (o : Result Outcome) (j : Job rails refuses)
      → IsHeld j
      → Tried j.server (then_on rails refuses (o, j) (store_reply rails refuses))
  body-Tried (ok d) j h = store-Tried d j h
  body-Tried (err m) j h = inr (m, refl, refl, h)

  read-Tried :
      (reply : Reply) (j : Job rails refuses)
      → IsHeld j
      → Tried j.server (read_reply rails refuses reply j)
  unfolding read_reply
  read-Tried reply j h = elim (Bool-cases (reply.code == js "200")) [
    | inl e ↦ rw e (body-Tried reply.body j h)
    | inr e ↦
        rw e (inr (js "Go RSS parser fallback failed with HTTP " ++ reply.code, refl, refl, h))
  ]

  response-Tried :
      (o : Result Reply) (j : Job rails refuses)
      → IsHeld j
      → Tried j.server (then_on rails refuses (o, j) (read_reply rails refuses))
  response-Tried (ok reply) j h = read-Tried reply j h
  response-Tried (err m) j h = inr (m, refl, refl, h)

  -- If the cable delivers every message, and the record in memory was read as the request's rows are:
  -- however the service answers, and if it does not, the fallback ends in one of two ways. It has sent one
  -- message, for the request, whose rows have the status that the message tells; or saving the record as
  -- failed has raised, which the job passes on, and no message was sent.
  pub execute_fallback-Ends :
      (response : Result Reply) (j : Job rails refuses)
      → IsHeld j
      → Ends j.server (execute_fallback rails refuses response j)
  unfolding execute_fallback
  execute_fallback-Ends response j h =
      recovered j.server (then_on rails refuses (response, j) (read_reply rails refuses))
        (response-Tried response j h)
