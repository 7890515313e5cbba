-- ===== src/RateLimit.antt =====
-- app/auth/rate_limit.py, `SlidingWindowRateLimiter`. Times are those of the
-- monotonic clock; `bucket[0] < now - window` is compared without the subtraction.
use tg_forwarder.Prelude.{
  ℕ, ◌+◌, ◌≤◌, ◌<◌, ◌≡◌, refl, sym, ◌∙◌, ap, Bool, true, false, List, [], ◌∷◌, ◌++◌, arith, ltb,
  leb, if◌then◌else◌, length, keep, All, All-append, length-append, length-keep, ++_assoc,
  Bool-cases, inl, inr,
}
use tg_forwarder.Host.{Text, same_text, same_text_refl}

pub record SlidingWindowRateLimiter : Type 0 where
  pub limit : ℕ
  pub window_seconds : ℕ
  -- `defaultdict(deque)`.
  pub hits : Text → List ℕ

-- `while bucket and bucket[0] < cutoff: bucket.popleft()`.
unfoldable pub drop_old : ℕ → ℕ → List ℕ → List ℕ
drop_old window now [] = []
drop_old window now (t ∷ ts) =
    let rest = drop_old window now ts in if ltb (t + window) now then rest else t ∷ ts

unfoldable pub allow_bucket : ℕ → ℕ → ℕ → List ℕ → Bool × List ℕ
unfolding drop_old
allow_bucket limit window now bucket =
    let kept = drop_old window now bucket in
    if leb limit (length kept) then (false, kept) else (true, kept ++ now ∷ [])

abbrev set_hits : Text → List ℕ → (Text → List ℕ) → Text → List ℕ
set_hits key bucket hits k = if same_text k key then bucket else hits k

unfoldable pub allow : ℕ → Text → SlidingWindowRateLimiter → Bool × SlidingWindowRateLimiter
unfolding allow_bucket
allow now key r =
    let (ok, bucket) = allow_bucket r.limit r.window_seconds now (r.hits key) in
    (ok, record r { hits = set_hits key bucket r.hits })

unfoldable pub reset : Text → SlidingWindowRateLimiter → SlidingWindowRateLimiter
reset key r = record r { hits = set_hits key [] r.hits }

-- The requests of one key at the times of a list: the times that were allowed, oldest first, and
-- the limiter.
unfoldable pub requests :
    Text → List ℕ → List ℕ × SlidingWindowRateLimiter → List ℕ × SlidingWindowRateLimiter
unfolding allow
requests key [] s = s
requests key (now ∷ times) (allowed, r) =
    let (ok, r') = allow now key r in
    requests key times (if ok then allowed ++ now ∷ [] else allowed, r')

-- Times that do not go back, up to a last one.
abbrev pub Monotone : ℕ → List ℕ → ℕ → Type 0
Monotone start [] last = start ≤ last
Monotone start (t ∷ ts) last = (start ≤ t) × Monotone t ts last

-- The allowed times that lie in the window that ends at `now`.
abbrev pub in_window : ℕ → ℕ → List ℕ → List ℕ
in_window window now times = keep (λ t. leb now (t + window)) times

-- The bucket holds the allowed times, but for some that have left the window.
pub record Tracks (limit window now : ℕ) (allowed bucket : List ℕ) : Type 0 where
  pub old : List ℕ
  pub parts : allowed ≡ old ++ bucket
  pub gone : All (λ (t : ℕ). t + window < now) old
  pub few : length bucket ≤ limit

module _ (window now : ℕ) where
  abbrev Gone : ℕ → Type 0
  Gone t = t + window < now

  -- The loop pops a first part, which has left the window.
  drop_old-parts :
      (ts : List ℕ) → (popped : List ℕ) × (ts ≡ popped ++ drop_old window now ts) × All Gone popped
  unfolding drop_old
  drop_old-parts [] = ([], refl, tt)
  drop_old-parts (t ∷ ts) = elim (Bool-cases (ltb (t + window) now)) [
    | inl b ↦
        let (popped, parts, gone) = drop_old-parts ts in
        rw b (t ∷ popped, ap (◌∷◌ t) parts, (ground arith, gone))
    | inr b ↦ rw b ([], refl, tt)
  ]

  length-drop_old : (ts : List ℕ) → length (drop_old window now ts) ≤ length ts
  unfolding drop_old
  length-drop_old [] = omega arith
  length-drop_old (t ∷ ts) = ground (arith, length-drop_old ts)

  Gone-later :
      (before : ℕ) (ts : List ℕ)
      → before ≤ now
      → All (λ (t : ℕ). t + window < before) ts
      → All Gone ts
  Gone-later before [] le h = tt
  Gone-later before (t ∷ ts) le h = (omega arith, Gone-later before ts le h.1)

  in_window-Gone :
      (ts us : List ℕ) → All Gone ts → in_window window now (ts ++ us) ≡ in_window window now us
  in_window-Gone [] us h = refl
  in_window-Gone (t ∷ ts) us h =
      let out : leb now (t + window) ≡ false = ground arith in rw out (in_window-Gone ts us h.1)

module _ (limit window : ℕ) where
  allow_bucket-Tracks :
      (before now : ℕ) (allowed bucket : List ℕ)
      → before ≤ now
      → Tracks limit window before allowed bucket
      → Tracks limit window now
          (if (allow_bucket limit window now bucket).0 then allowed ++ now ∷ [] else allowed)
          (allow_bucket limit window now bucket).1
  unfolding allow_bucket
  allow_bucket-Tracks before now allowed bucket le h =
      let kept = drop_old window now bucket in
      let (popped, parts, gone) = drop_old-parts window now bucket in
      let all_parts : allowed ≡ (h.old ++ popped) ++ kept =
        h.parts ∙ (ap (λ (b : List ℕ). h.old ++ b) parts ∙ sym (++_assoc h.old popped kept)) in
      let all_gone =
        All-append (Gone window now) h.old popped (Gone-later window now before h.old le h.gone)
          gone in
      elim (Bool-cases (leb limit (length kept))) [
        | inl full ↦ rw full (record {
          old = h.old ++ popped;
          parts = all_parts;
          gone = all_gone;
          few = omega (arith, length-drop_old window now bucket, h.few);
        })
        | inr room ↦ rw room (record {
          old = h.old ++ popped;
          parts =
              ap (λ (b : List ℕ). b ++ now ∷ []) all_parts
              ∙ ++_assoc (h.old ++ popped) kept (now ∷ []);
          gone = all_gone;
          few = below kept room;
        })
      ]
    where
      below : (kept : List ℕ) → leb limit (length kept) ≡ false → length (kept ++ now ∷ []) ≤ limit
      below kept room = ground (arith, length-append kept (now ∷ []))

-- What the limiter tracks for one key.
abbrev Tracked : Text → ℕ → List ℕ × SlidingWindowRateLimiter → Type 0
Tracked key now (allowed, r) = Tracks r.limit r.window_seconds now allowed (r.hits key)

allow-Tracked :
    (key : Text) (before now : ℕ) (allowed : List ℕ) (r : SlidingWindowRateLimiter)
    → before ≤ now
    → Tracked key before (allowed, r)
    → Tracked key now
        (if (allow now key r).0 then allowed ++ now ∷ [] else allowed, (allow now key r).1)
unfolding allow
allow-Tracked key before now allowed r le h =
    rw (same_text_refl key)
      (allow_bucket-Tracks r.limit r.window_seconds before now allowed (r.hits key) le h)

requests-Tracked :
    (key : Text) (start : ℕ) (times : List ℕ) (last : ℕ) (allowed : List ℕ)
    (r : SlidingWindowRateLimiter)
    → Monotone start times last
    → Tracked key start (allowed, r)
    → Tracked key last (requests key times (allowed, r))
unfolding requests
requests-Tracked key start [] last allowed r le h = later h
  where
    later : Tracked key start (allowed, r) → Tracked key last (allowed, r)
    later t = record {
      old = t.old;
      parts = t.parts;
      gone = Gone-later r.window_seconds last start t.old le t.gone;
      few = t.few;
    }
requests-Tracked key start (now ∷ times) last allowed r m h =
    requests-Tracked key now times last
      (if (allow now key r).0 then allowed ++ now ∷ [] else allowed) (allow now key r).1 m.1
      (allow-Tracked key start now allowed r m.0 h)

requests-config :
    (key : Text) (times : List ℕ) (allowed : List ℕ) (r : SlidingWindowRateLimiter)
    → ((requests key times (allowed, r)).1.limit ≡ r.limit)
      × ((requests key times (allowed, r)).1.window_seconds ≡ r.window_seconds)
unfolding requests allow
requests-config key [] allowed r = (refl, refl)
requests-config key (now ∷ times) allowed r = requests-config key times _ (allow now key r).1

Tracks-bound :
    (limit window now : ℕ) (allowed bucket : List ℕ)
    → Tracks limit window now allowed bucket
    → length (in_window window now allowed) ≤ limit
Tracks-bound limit window now allowed bucket h =
    rw (h.parts, in_window-Gone window now h.old bucket h.gone)
      (omega (arith, length-keep (λ (t : ℕ). leb now (t + window)) bucket, h.few))

-- After any requests of a key at times that do not go back, at most `limit` of the allowed ones lie
-- in the window that ends at the last time.
pub requests-bound :
    (key : Text) (times : List ℕ) (last : ℕ) (r : SlidingWindowRateLimiter)
    → r.hits key ≡ []
    → Monotone 0 times last
    → length (in_window r.window_seconds last (requests key times ([], r)).0) ≤ r.limit
requests-bound key times last r fresh m =
    let (same_limit, same_window) = requests-config key times [] r in
    let start : Tracked key 0 ([], r) = record {
      old = [];
      parts = sym fresh;
      gone = tt;
      few = rw fresh (omega arith);
    } in
    let end = requests-Tracked key 0 times last [] r m start in
    let s = requests key times ([], r) in
    let bound = Tracks-bound s.1.limit s.1.window_seconds last s.0 (s.1.hits key) end in
    rw (same_limit, same_window) at bound
