-- ===== src/Examples/Clock.antt =====
-- A Redis server on which the locks expire, and a platform over it.
use sp1_helios.Prelude.{
  ℕ, ◌-◌, ◌≡◌, refl, ap, sym, ◌∙◌, map, Option, none, some, Bool, true, false, not, ◌&&◌, Result,
  ok, is_some, Text, text_eq, text_eq_refl, arith, if◌then◌else◌, ◌==◌, ltb,
}
use sp1_helios.Redis.{Redis, Platform, Documented, Reachable, written}
use sp1_helios.Redis.Expiring.{Expiring}
use sp1_helios.Action.Runs.{Values, put, erase}
use sp1_helios.Examples.Server.{small_platform, scanned_keys}

-- The values, and the milliseconds left of each key that expires.
pub record Clocked : Type 0 where
  pub values : Values
  pub times : Text → Option ℕ

abbrev free : Clocked → Text → Bool
free s k = not (is_some (s.values k))

abbrev pub clocked_redis : Redis
clocked_redis = record {
  Server = Clocked;
  lookup = λ s k. s.values k;
  get = λ k s. (ok (s.values k), s);
  mget = λ ks s. (ok (map s.values ks), s);
  set_value = λ k v s. (ok tt, record s { values = put s.values k v });
  set_ex_value = λ k v n s. (ok tt, record s { values = put s.values k v });
  set_nx_px = λ k v n s. (
    ok (free s k),
    record {
      values = λ j. if free s k && text_eq k j then some v else s.values j;
      times = λ j. if free s k && text_eq k j then some n else s.times j;
    },
  );
  del = λ k s. (
    ok tt,
    record { values = erase s.values k; times = λ j. if text_eq k j then none else s.times j },
  );
  pexpire = λ k n s. (
    ok (if is_some (s.values k) then 1 else 0),
    record {
      values = λ j. if text_eq k j && (n == 0) then none else s.values j;
      times = λ j. if is_some (s.values k) && text_eq k j then some n else s.times j;
    },
  );
  scan = λ c pattern n s. (ok (0, scanned_keys), s);
  exec = λ ws s. (ok tt, record s { values = written s.values ws });
}

pub clocked_documented : Documented clocked_redis
clocked_documented = record {
  get_ok = λ k s s' v e.
      (ground arith, λ j. ap (λ (q : Result Text (Option Text) × Clocked). q.1.values j) (sym e));
  pexpire_ok = λ k n s s' c e.
      (ground arith, λ j. ap (λ (q : Result Text ℕ × Clocked). q.1.values j) (sym e));
  mget_ok = λ ks s s' v e. (ground arith, λ j. ground arith);
  scan_ok = λ c pattern n s s' v e j. ground arith;
  set_ex_ok = λ k v n s s' e j. ground arith;
  set_nx_ok = λ k v n s s' b e. (ground arith, λ j. ground arith);
  del_ok = λ k s s' e j. ground arith;
  exec_ok = λ ws s s' e j. ground arith;
}

pub clocked_reachable : Reachable clocked_redis
clocked_reachable = record {
  get_answers = λ k s. refl;
  mget_answers = λ ks s. refl;
  set_ex_answers = λ k v n s. refl;
  set_nx_answers = λ k v n s. refl;
  pexpire_answers = λ k n s. refl;
  del_answers = λ k s. refl;
  scan_answers = λ c pattern n s. refl;
  exec_answers = λ ws s. refl;
}

abbrev expire : Option ℕ → ℕ → Option Text → Option Text
expire none n v = v
expire (some m) n v = if ltb n m then v else none

abbrev shorten : Option ℕ → ℕ → Option ℕ
shorten none n = none
shorten (some m) n = if ltb n m then some (m - n) else none

abbrev pub clocked_expiring : Expiring clocked_redis
clocked_expiring = record {
  remaining = λ s k. s.times k;
  pass = λ n s. record {
    values = λ k. expire (s.times k) n (s.values k);
    times = λ k. shorten (s.times k) n;
  };
  elsewhere = record {
    get_keeps = λ k s j. refl;
    mget_keeps = λ ks s j. refl;
    scan_keeps = λ c pattern n s j. refl;
    set_ex_keeps = λ k v n s j other. refl;
    set_nx_keeps = λ k v n s j other. ground (arith, other);
    pexpire_keeps = λ k n s j other. ground (arith, other);
    del_keeps = λ k s j other. ground (arith, other);
    exec_keeps = λ ws s j others. refl;
  };
  set_nx_grants = λ k v n s s' e.
      let acquired : free s k ≡ true = ground (arith, e) in
      ap (λ (q : Result Text Bool × Clocked). q.1.times k) (sym e)
      ∙ ground (arith, acquired, text_eq_refl k);
  set_nx_refuses = λ k v n s s' e.
      let refused : free s k ≡ false = ground (arith, e) in
      ap (λ (q : Result Text Bool × Clocked). q.1.times k) (sym e) ∙ ground (arith, refused);
  pexpire_grants = λ k n s s' e pos.
      let held : is_some (s.values k) ≡ true = ground (arith, e) in
      ap (λ (q : Result Text ℕ × Clocked). q.1.times k) (sym e)
      ∙ ground (arith, held, text_eq_refl k);
  pass_keeps = λ n m s k e lt. ground (arith, e, lt);
  pass_takes = λ n m s k e lt. ground (arith, e, lt);
}

-- The platform of the small server, over this one.
abbrev pub clocked_platform : Platform
clocked_platform = record small_platform { redis = clocked_redis }
