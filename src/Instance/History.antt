-- ===== src/Instance/History.antt =====
-- `start` and `stop` over the life of an instance: src/async.cpp.
use curlev.Prelude.{ℕ, Bool, true, false, List, [], ◌∷◌, ◌≡◌, refl, arith, ap, ◌∙◌}
use curlev.Async.Global.{Global, global_init, global_clear, curl_global_init}
use curlev.Instance.{
  Instance, Answers, share_init, share_clear, multi_init, multi_clear, uv_init, uv_clear, cb_init,
  cb_clear, global_start, then_try, start, clear,
}
use curlev.Instance.Steps.{stopped, IsSound, Reported, start-Reported, clear-IsSound}

global_returned :
    (others : ℕ) (init_ok ca_ok : Bool)
    → let g : Global = record { count = 0; initialized = others } in
      global_clear (global_init init_ok ca_ok g).0 ≡ g
unfolding global_init global_clear curl_global_init
global_returned others true true = ground arith
global_returned others true false = ground arith
global_returned others false true = ground arith
global_returned others false false = ground arith

-- What the steps after `global_init` leave of a fresh instance.
steps_global :
    (others : ℕ) (a : Answers) (g : Global) (b : Bool)
    → let t =
        then_try
          (then_try
            (then_try
              (then_try (record (stopped others) { global = g }, b) (share_init a))
              (multi_init a))
            (uv_init a))
          cb_init in
      (t.0.global ≡ g) × (t.0.lost ≡ 0)
unfolding share_init multi_init uv_init cb_init
steps_global others a g true = ground arith
steps_global others a g false = ground arith

-- However `start` of a stopped instance ends, `stop` then gives back all that it took: libcurl is
-- initialized as often as before, no handle is left or lost, and no thread runs.
pub start-stopped : (others : ℕ) (a : Answers) → clear (start a (stopped others)).0 ≡ stopped others
unfolding start clear global_start share_clear multi_clear uv_clear cb_clear
start-stopped others a =
    let r = global_init a.init_ok a.ca_ok (record { count = 0; initialized = others }) in
    let (g, l) = steps_global others a r.0 r.1 in
    λ j. record (stopped others) {
      global = (ap global_clear g ∙ global_returned others a.init_ok a.ca_ok) j;
      lost = l j;
    }

-- The calls of an instance, by its user and its destructor.
pub data Call : Type 0 where
  starts : Answers → Call
  stops : Call

unfoldable pub run : List Call → Instance → Instance
unfolding start clear
run [] s = s
run (starts a ∷ cs) s = run cs (start a s).0
run (stops ∷ cs) s = run cs (clear s)

stopped-IsSound : (others : ℕ) → IsSound others (stopped others)
stopped-IsSound others = record {
  counted = ground arith;
  loop = refl;
  timer = refl;
  workers = (refl, refl);
  callbacks = refl;
  handles = λ e. ground (arith, e);
}

run-IsSound :
    (others : ℕ) (cs : List Call) (s : Instance) → IsSound others s → IsSound others (run cs s)
unfolding run
run-IsSound others [] s i = i
run-IsSound others (starts a ∷ cs) s i =
    run-IsSound others cs (start a s).0 (start-Reported others a s i).0
run-IsSound others (stops ∷ cs) s i = run-IsSound others cs (clear s) (clear-IsSound others s i)

-- Whatever calls of `start` and `stop` came before, and whatever was answered to them, `start` tells
-- whether the instance runs; the loop, its timer and the two threads are there exactly while it
-- does, with the handles of libcurl; and libcurl is initialized once for the instance while its
-- count is positive.
pub start-Reported_always :
    (others : ℕ) (cs : List Call) (a : Answers)
    → Reported others (start a (run cs (stopped others)))
start-Reported_always others cs a =
    start-Reported others a (run cs (stopped others))
      (run-IsSound others cs (stopped others) (stopped-IsSound others))
