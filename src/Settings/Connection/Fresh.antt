-- ===== src/Settings/Connection/Fresh.antt =====
-- The badges of a test belong to the draft that the page shows.
use light_oss.Base.{
  number_key, ℕ, ◌+◌, ◌<◌, ◌≡◌, ◌≢◌, refl, sym, ap, ◌∙◌, Bool, true, false, not, ◌||◌, Option, none,
  some, List, [], ◌∷◌, ◌++◌, ◌==◌, ==_iff, is_empty, All, All-append, arith, Bool-cases, inl, inr,
  ◌⊎◌,
}
use light_oss.Base.Reach.{Reach, invariant, All-take_out}
use light_oss.Base.JsSet.{has}
use light_oss.Api.Requests.{AppSettings}
use light_oss.Api.Health.{ConnectionHealthStates, create_checking_connection_health_states}
use light_oss.Settings.Connection.{
  Test, Connection, Outcome, read_draft_settings, clear_manual_health_states, update_draft_settings,
  handle_submit, handle_test_connection, states_of, test_answered, landing, Step, edit, submit,
  test, answer,
}

abbrev pub test_ids : List Test → List ℕ
test_ids [] = []
test_ids (t ∷ ts) = t.request_id ∷ test_ids ts

-- A test is older than the latest one, or it is that one and was sent with the draft.
abbrev pub IsLive : ℕ → AppSettings → Test → Type 0
IsLive latest draft t = (t.request_id < latest) ⊎ ((t.request_id ≡ latest) × (t.settings ≡ draft))

module _ (Answered : AppSettings → Outcome → Type 0) where
  -- What the badges show while a test runs and after it.
  abbrev pub Shows : AppSettings → Option ConnectionHealthStates → Bool → Type 0
  Shows draft none testing = testing ≡ false
  Shows draft (some states) true = states ≡ create_checking_connection_health_states
  Shows draft (some states) false =
      (outcome : Outcome) × Answered draft outcome × (states ≡ states_of outcome)

  pub record IsFresh (c : Connection) : Type 0 where
    pub live : All (IsLive c.test_request (read_draft_settings c.draft_settings)) c.tests
    pub shown :
        Shows (read_draft_settings c.draft_settings) c.manual_health_states c.is_testing_connection
    -- The latest test is still under way while the page says so.
    pub waits : (not c.is_testing_connection || has c.test_request (test_ids c.tests)) ≡ true

  older :
      (n : ℕ) (d d' : AppSettings) (ts : List Test)
      → All (IsLive n d) ts
      → All (IsLive (n + 1) d') ts
  older n d d' [] h = tt
  older n d d' (t ∷ ts) (inl h, hs) = (inl (omega arith), older n d d' ts hs)
  older n d d' (t ∷ ts) (inr (h, k), hs) = (inl (omega arith), older n d d' ts hs)

  left :
      (n : ℕ) (ts : List Test) (t : Test) (us : List Test)
      → t.request_id ≢ n
      → has n (test_ids (ts ++ us)) ≡ has n (test_ids (ts ++ t ∷ us))
  left n [] t us h = ground (arith, ==_iff t.request_id n)
  left n (x ∷ ts) t us h = ap (λ b. x.request_id == n || b) (left n ts t us h)

  sent :
      (n : ℕ) (ts : List Test) (t : Test)
      → t.request_id ≡ n
      → has n (test_ids (ts ++ t ∷ [])) ≡ true
  sent n [] t h = ground arith
  sent n (x ∷ ts) t h = rw (sent n ts t h) (ground arith)

  cleared-IsFresh :
      (c : Connection) (saved draft : AppSettings)
      → IsFresh c
      → IsFresh (record (clear_manual_health_states c) { settings = saved; draft_settings = draft })
  unfolding clear_manual_health_states
  cleared-IsFresh c saved draft h = record {
    live =
        older c.test_request (read_draft_settings c.draft_settings) (read_draft_settings draft)
          c.tests h.live;
    shown = refl;
    waits = refl;
  }

  test-IsFresh : (c : Connection) → IsFresh c → IsFresh (handle_test_connection c)
  unfolding handle_test_connection
  test-IsFresh c h =
      elim (Bool-cases (is_empty (read_draft_settings c.draft_settings).api_base_url)) [
        | inl empty ↦ simp empty h
        | inr given ↦ simp given (record {
          live =
              All-append (IsLive (c.test_request + 1) (read_draft_settings c.draft_settings))
                c.tests _
                (older c.test_request (read_draft_settings c.draft_settings) _ c.tests h.live)
                (inr (refl, refl), tt);
          shown = refl;
          waits = sent (c.test_request + 1) c.tests _ refl;
        })
      ]

  answer-IsFresh :
      (c : Connection) (ts us : List Test) (t : Test) (outcome : Outcome)
      → c.tests ≡ ts ++ t ∷ us
      → Answered t.settings outcome
      → IsFresh c
      → IsFresh (test_answered t.request_id outcome (landing (ts ++ us) c))
  unfolding test_answered
  answer-IsFresh c ts us t outcome e a h =
      let (own, rest) =
        All-take_out (IsLive c.test_request (read_draft_settings c.draft_settings)) ts t us
          (rw e at h.live) in
      elim (Bool-cases (c.test_request == t.request_id)) [
        | inl latest ↦ simp latest (record {
          live = rest;
          shown = (
            outcome,
            of_latest own (sym ((==_iff c.test_request t.request_id).0 latest)) a,
            refl,
          );
          waits = refl;
        })
        | inr stale ↦ simp stale (record {
          live = rest;
          shown = h.shown;
          waits =
              ap (λ b. not c.is_testing_connection || b)
                (left c.test_request ts t us (stale_id stale)
                  ∙ ap (λ l. has c.test_request (test_ids l)) (sym e))
              ∙ h.waits;
        })
      ]
    where
      of_latest :
          IsLive c.test_request (read_draft_settings c.draft_settings) t
          → t.request_id ≡ c.test_request
          → Answered t.settings outcome
          → Answered (read_draft_settings c.draft_settings) outcome
      of_latest (inl old) k b = absurd (omega arith)
      of_latest (inr (_, same)) k b = rw same at b

      stale_id : (c.test_request == t.request_id) ≡ false → t.request_id ≢ c.test_request
      stale_id k = ground (arith, ==_iff c.test_request t.request_id)

  Step-IsFresh : {c d : Connection} → Step Answered c d → IsFresh c → IsFresh d
  unfolding update_draft_settings handle_submit
  Step-IsFresh (edit c n) h = cleared-IsFresh c c.settings _ h
  Step-IsFresh (submit c) h = cleared-IsFresh c _ _ h
  Step-IsFresh (test c) h = test-IsFresh c h
  Step-IsFresh (answer c ts us t outcome e a) h = answer-IsFresh c ts us t outcome e a h

  -- For any relation of outcomes to settings: after any order of edits, saves, tests and answers,
  -- the badges are those of no test, those of a running test, or of an outcome of a test sent
  -- with the trimmed draft that the page shows now, and a test that the page waits for is under
  -- way.
  pub Reach-IsFresh : {c d : Connection} → IsFresh c → Reach (Step Answered) c d → IsFresh d
  Reach-IsFresh h r = invariant (Step Answered) IsFresh (λ s t k p. Step-IsFresh k p) _ _ h r

  pick :
      (n : ℕ) (tests : List Test)
      → has n (test_ids tests) ≡ true
      → (ts : List Test) × (t : Test) × (us : List Test) × (tests ≡ ts ++ t ∷ us)
        × (t.request_id ≡ n)
  pick n [] h = cc
  pick n (x ∷ tests) h = elim (Bool-cases (x.request_id == n)) [
    | inl same ↦ ([], x, tests, refl, (==_iff x.request_id n).0 same)
    | inr other ↦
        let (ts, t, us, e, k) = pick n tests (rw other at h) in
        (x ∷ ts, t, us, ap (λ l. x ∷ l) e, k)
  ]

  of_draft :
      (n : ℕ) (draft : AppSettings) (ts us : List Test) (t : Test)
      → t.request_id ≡ n
      → All (IsLive n draft) (ts ++ t ∷ us)
      → t.settings ≡ draft
  of_draft n draft ts us t k h = current ((All-take_out (IsLive n draft) ts t us h).0)
    where
      current : IsLive n draft t → t.settings ≡ draft
      current (inl old) = absurd (omega (arith, k))
      current (inr (_, same)) = same

  -- For every outcome: where the page is testing in a state with fresh badges, a test with the
  -- trimmed draft that the page shows is under way whose answer by that outcome ends the testing
  -- and makes the badges those of the outcome.
  pub answer-ends_testing :
      (c : Connection) (outcome : Outcome)
      → IsFresh c
      → c.is_testing_connection ≡ true
      → (ts : List Test) × (t : Test) × (us : List Test) × (c.tests ≡ ts ++ t ∷ us)
        × (t.settings ≡ read_draft_settings c.draft_settings)
        × ((test_answered t.request_id outcome (landing (ts ++ us) c)).is_testing_connection
            ≡ false)
        × ((test_answered t.request_id outcome (landing (ts ++ us) c)).manual_health_states
            ≡ some (states_of outcome))
  unfolding test_answered
  answer-ends_testing c outcome h testing =
      let waiting : has c.test_request (test_ids c.tests) ≡ true =
        ap (λ b. not b || has c.test_request (test_ids c.tests)) (sym testing) ∙ h.waits in
      let (ts, t, us, e, k) = pick c.test_request c.tests waiting in
      let latest : (c.test_request == t.request_id) ≡ true =
        (==_iff c.test_request t.request_id).1 (sym k) in
      (
        ts,
        t,
        us,
        e,
        of_draft c.test_request (read_draft_settings c.draft_settings) ts us t k (rw e at h.live),
        simp latest refl,
        simp latest refl,
      )
