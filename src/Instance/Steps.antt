-- ===== src/Instance/Steps.antt =====
-- Step by step, what `start` and `stop` leave of an instance: src/async.cpp.
use curlev.Prelude.{
  ℕ, Bool, true, false, ◌&&◌, not, ◌≡◌, refl, arith, if◌then◌else◌, ltb, Bool-cases, inl, inr, sym,
  ◌∙◌,
}
use curlev.Async.Global.{
  Global, global_init, curl_global_init, IsCounted, init-IsCounted, clear-IsCounted,
}
use curlev.Instance.{
  Instance, Answers, share_init, share_clear, multi_init, multi_clear, uv_init, uv_clear, cb_init,
  cb_clear, global_start, then_try, start, clear,
}

-- An instance that was not started.
abbrev pub stopped : ℕ → Instance
stopped others = record {
  global = record { count = 0; initialized = others };
  share_handle = false;
  multi_handle = false;
  uv_loop = false;
  uv_timer = false;
  uv_running = false;
  uv_worker = false;
  cb_running = false;
  cb_worker = false;
  lost = 0;
}

abbrev pub all_up : Instance → Bool
all_up s =
    ltb 0 s.global.count
    && (s.share_handle
        && (s.multi_handle
            && (s.uv_loop
                && (s.uv_timer
                    && (s.uv_running && (s.uv_worker && (s.cb_running && s.cb_worker)))))))

-- What holds whatever was called.
pub record IsSound (others : ℕ) (s : Instance) : Type 0 where
  pub counted : IsCounted others s.global
  pub loop : s.uv_loop ≡ s.uv_running
  pub timer : s.uv_timer ≡ s.uv_running
  pub workers : (s.uv_worker ≡ s.uv_running) × (s.cb_worker ≡ s.uv_running)
  pub callbacks : s.cb_running ≡ s.uv_running
  pub handles :
      s.uv_running ≡ true
      → (s.share_handle ≡ true) × (s.multi_handle ≡ true) × (ltb 0 s.global.count ≡ true)

global_init_counts :
    (init_ok ca_ok : Bool) (g : Global)
    → (global_init init_ok ca_ok g).1 ≡ true
    → ltb 0 (global_init init_ok ca_ok g).0.count ≡ true
unfolding global_init curl_global_init
global_init_counts true true g e = ground (arith, e)
global_init_counts true false g e = ground (arith, e)
global_init_counts false true g e = ground (arith, e)
global_init_counts false false g e = ground (arith, e)

-- What holds while the threads do not run.
record IsDown (others : ℕ) (s : Instance) : Type 0 where
  counted : IsCounted others s.global
  loop : s.uv_loop ≡ false
  timer : s.uv_timer ≡ false
  running : s.uv_running ≡ false
  workers : (s.uv_worker ≡ false) × (s.cb_worker ≡ false)
  callbacks : s.cb_running ≡ false

sound-IsDown :
    (others : ℕ) (s : Instance) → s.uv_running ≡ false → IsSound others s → IsDown others s
sound-IsDown others s e i = record {
  counted = i.counted;
  loop = i.loop ∙ e;
  timer = i.timer ∙ e;
  running = e;
  workers = let (a, b) = i.workers in (a ∙ e, b ∙ e);
  callbacks = i.callbacks ∙ e;
}

-- What `start` comes to: all is as it should be, and the result tells whether the threads run.
abbrev pub Reported : ℕ → Instance × Bool → Type 0
Reported others r = IsSound others r.0 × (r.1 ≡ r.0.uv_running)

down-Reported : (others : ℕ) (s : Instance) → IsDown others s → Reported others (s, false)
down-Reported others s d = (
  record {
    counted = d.counted;
    loop = d.loop ∙ sym d.running;
    timer = d.timer ∙ sym d.running;
    workers = let (a, b) = d.workers in (a ∙ sym d.running, b ∙ sym d.running);
    callbacks = d.callbacks ∙ sym d.running;
    handles = λ e. ground (arith, d.running, e);
  },
  sym d.running,
)

moved-IsDown :
    (others : ℕ) (g : Global) (share multi : Bool) (lost : ℕ) (s : Instance)
    → IsCounted others g
    → IsDown others s
    → IsDown others
        (record s { global = g; share_handle = share; multi_handle = multi; lost = lost })
moved-IsDown others g share multi lost s c d = record {
  counted = c;
  loop = d.loop;
  timer = d.timer;
  running = d.running;
  workers = d.workers;
  callbacks = d.callbacks;
}

uv_started :
    (others : ℕ) (a : Answers) (s : Instance)
    → s.share_handle ≡ true
    → s.multi_handle ≡ true
    → ltb 0 s.global.count ≡ true
    → IsDown others s
    → Reported others (then_try (uv_init a s) cb_init)
unfolding uv_init cb_init
uv_started others a s sh mu c d =
    elim (Bool-cases (not s.uv_loop && (a.loop_created && (a.loop_init_ok && a.timer_init_ok)))) [
      | inl e ↦ rw (e) (
        record {
          counted = d.counted;
          loop = refl;
          timer = refl;
          workers = (refl, refl);
          callbacks = refl;
          handles = λ f. (sh, mu, c);
        },
        refl,
      )
      | inr e ↦ rw (e) (
          down-Reported others (record s { uv_loop = false })
            (record {
              counted = d.counted;
              loop = refl;
              timer = d.timer;
              running = d.running;
              workers = d.workers;
              callbacks = d.callbacks;
            }))
    ]

multi_started :
    (others : ℕ) (a : Answers) (s : Instance)
    → s.share_handle ≡ true
    → ltb 0 s.global.count ≡ true
    → IsDown others s
    → Reported others (then_try (then_try (multi_init a s) (uv_init a)) cb_init)
unfolding multi_init
multi_started others a s sh c d = elim (Bool-cases (a.multi_created && a.multi_set)) [
  | inl e ↦ rw (e) (
      uv_started others a (record s { multi_handle = true; lost = _ }) sh refl c
        (moved-IsDown others s.global s.share_handle true _ s d.counted d))
  | inr e ↦ rw (e) (
      down-Reported others (record s { multi_handle = false; lost = _ })
        (moved-IsDown others s.global s.share_handle false _ s d.counted d))
]

share_started :
    (others : ℕ) (a : Answers) (s : Instance)
    → ltb 0 s.global.count ≡ true
    → IsDown others s
    → Reported others
        (then_try (then_try (then_try (share_init a s) (multi_init a)) (uv_init a)) cb_init)
unfolding share_init
share_started others a s c d = elim (Bool-cases (a.share_created && a.share_set)) [
  | inl e ↦ rw (e) (
      multi_started others a (record s { share_handle = true; lost = _ }) refl c
        (moved-IsDown others s.global true s.multi_handle _ s d.counted d))
  | inr e ↦ rw (e) (
      down-Reported others (record s { share_handle = false; lost = _ })
        (moved-IsDown others s.global false s.multi_handle _ s d.counted d))
]

global_started :
    (others : ℕ) (a : Answers) (s : Instance) (r : Global × Bool)
    → IsCounted others r.0
    → (r.1 ≡ true → ltb 0 r.0.count ≡ true)
    → IsDown others s
    → Reported others (
        then_try
          (then_try
            (then_try (then_try (record s { global = r.0 }, r.1) (share_init a)) (multi_init a))
            (uv_init a))
          cb_init)
global_started others a s (g, true) c f d =
    share_started others a (record s { global = g }) (f refl)
      (moved-IsDown others g s.share_handle s.multi_handle s.lost s c d)
global_started others a s (g, false) c f d =
    down-Reported others (record s { global = g })
      (moved-IsDown others g s.share_handle s.multi_handle s.lost s c d)

-- A property of both branches.
if_cases :
    {A : Type 0} (Q : A → Type 0) (b : Bool) {x y : A}
    → (b ≡ true → Q x)
    → (b ≡ false → Q y)
    → Q (if b then x else y)
if_cases Q true f g = f refl
if_cases Q false f g = g refl

pub start-Reported :
    (others : ℕ) (a : Answers) (s : Instance) → IsSound others s → Reported others (start a s)
unfolding start global_start
start-Reported others a s i =
    if_cases (Reported others) s.uv_running (λ e. (i, sym e))
      λ e.
        global_started others a s (global_init a.init_ok a.ca_ok s.global)
          (init-IsCounted others a.init_ok a.ca_ok s.global i.counted)
          (global_init_counts a.init_ok a.ca_ok s.global) (sound-IsDown others s e i)

pub clear-IsSound : (others : ℕ) (s : Instance) → IsSound others s → IsSound others (clear s)
unfolding clear uv_clear cb_clear share_clear multi_clear
clear-IsSound others s i = record {
  counted = clear-IsCounted others s.global i.counted;
  loop = refl;
  timer = refl;
  workers = (refl, refl);
  callbacks = refl;
  handles = λ e. ground (arith, e);
}
