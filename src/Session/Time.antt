-- ===== src/Session/Time.antt =====
-- zookeeper.c: times and the milliseconds between them.
use elephants.Base.{
  ℕ, suc, ◌+◌, ◌-◌, ◌*◌, ◌/◌, ◌%◌, ◌^◌, ◌<◌, ◌≤◌, ◌≡◌, ap, ◌∙◌, Bool-cases, inl, inr, true, false,
  ℤ, pos, negsuc, ◌+ℤ◌, ◌-ℤ◌, sub_ℕ, is_neg, ltb, ltb_ℤ, arith, if◌then◌else◌,
}
use elephants.Wire.Word.{word32, signed32}
use elephants.Session.{Timeval}

-- The product and the quotient of a number in C by one above 0: the quotient is rounded to 0.
abbrev pub times : ℤ → ℕ → ℤ
times (pos n) k = pos (n * k)
times (negsuc n) k = sub_ℕ 0 (suc n * k)

abbrev pub quot : ℤ → ℕ → ℤ
quot (pos n) k = pos (n / k)
quot (negsuc n) k = sub_ℕ 0 (suc n / k)

abbrev pub rem : ℤ → ℕ → ℤ
rem (pos n) k = pos (n % k)
rem (negsuc n) k = sub_ℕ 0 (suc n % k)

-- A `long` that is assigned to an `int`.
abbrev pub to_int : ℤ → ℤ
to_int z = signed32 (word32 z)

unfoldable pub calculate_interval : Timeval → Timeval → ℤ
calculate_interval start end =
    to_int (times (end.tv_sec -ℤ start.tv_sec) 1000 +ℤ quot (end.tv_usec -ℤ start.tv_usec) 1000)

unfoldable pub get_timeval : ℤ → Timeval
get_timeval interval =
    let interval1 = if is_neg interval then pos 0 else interval in
    record { tv_sec = quot interval1 1000; tv_usec = times (rem interval1 1000) 1000 }

-- `next_deadline`: the sum of two times. A sum of exactly a million microseconds is not carried.
unfoldable pub deadline : Timeval → Timeval → Timeval
deadline now tv =
    let usec = now.tv_usec +ℤ tv.tv_usec in
    let sec = now.tv_sec +ℤ tv.tv_sec in
    if ltb_ℤ (pos 1000000) usec
    then record { tv_sec = sec +ℤ quot usec 1000000; tv_usec = rem usec 1000000 }
    else record { tv_sec = sec; tv_usec = usec }

pub to_int-pos : (n : ℕ) → n < 2 ^ 31 → to_int (pos n) ≡ pos n
to_int-pos n h = ground arith

sub_pos : (a b : ℕ) → pos (a + b) -ℤ pos a ≡ pos b
sub_pos a b = ground arith

sub_neg : (a b : ℕ) → pos a -ℤ pos (a + suc b) ≡ negsuc b
sub_neg a b = ground arith

total_pos : (d k : ℕ) → times (pos d) 1000 +ℤ quot (pos k) 1000 ≡ pos (d * 1000 + k / 1000)
total_pos d k = ground arith

total_neg :
    (d k : ℕ)
    → suc k / 1000 ≤ d * 1000
    → times (pos d) 1000 +ℤ quot (negsuc k) 1000 ≡ pos (d * 1000 - suc k / 1000)
total_neg d k h = ground arith

-- From one time on to another whose microseconds are not fewer, and to one whose are.
calculate_interval-same :
    (s u d k : ℕ)
    → d * 1000 + k / 1000 < 2 ^ 31
    → calculate_interval
        (record { tv_sec = pos s; tv_usec = pos u })
        (record { tv_sec = pos (s + d); tv_usec = pos (u + k) })
      ≡ pos (d * 1000 + k / 1000)
unfolding calculate_interval
calculate_interval-same s u d k h =
    rw (calculate_interval, sub_pos s d, sub_pos u k, total_pos d k)
      (to_int-pos (d * 1000 + k / 1000) h)

calculate_interval-borrow :
    (s u d k : ℕ)
    → suc k / 1000 ≤ d * 1000
    → d * 1000 - suc k / 1000 < 2 ^ 31
    → calculate_interval
        (record { tv_sec = pos s; tv_usec = pos (u + suc k) })
        (record { tv_sec = pos (s + d); tv_usec = pos u })
      ≡ pos (d * 1000 - suc k / 1000)
unfolding calculate_interval
calculate_interval-borrow s u d k le h =
    rw (calculate_interval, sub_pos s d, sub_neg u k, total_neg d k le)
      (to_int-pos (d * 1000 - suc k / 1000) h)

add_pos : (a b : ℕ) → pos a +ℤ pos b ≡ pos (a + b)
add_pos a b = ground arith

-- `next_deadline` without a carry, and with one.
deadline-same :
    (s u n : ℕ)
    → u + n % 1000 * 1000 ≤ 1000000
    → deadline (record { tv_sec = pos s; tv_usec = pos u }) (get_timeval (pos n))
      ≡ record { tv_sec = pos (s + n / 1000); tv_usec = pos (u + n % 1000 * 1000) }
unfolding deadline get_timeval
deadline-same s u n h =
    let le : ltb_ℤ (pos 1000000) (pos (u + n % 1000 * 1000)) ≡ false = ground (arith, h) in
    rw (deadline, get_timeval, add_pos u (n % 1000 * 1000), add_pos s (n / 1000), le)

deadline-carried :
    (s u n : ℕ)
    → u < 1000000
    → 1000000 < u + n % 1000 * 1000
    → deadline (record { tv_sec = pos s; tv_usec = pos u }) (get_timeval (pos n))
      ≡ record { tv_sec = pos (s + (n / 1000 + 1)); tv_usec = pos (u + n % 1000 * 1000 - 1000000) }
unfolding deadline get_timeval
deadline-carried s u n h k =
    let gt : ltb_ℤ (pos 1000000) (pos (u + n % 1000 * 1000)) ≡ true = ground (arith, k) in
    let one : (u + n % 1000 * 1000) / 1000000 ≡ 1 = omega arith in
    let rest : (u + n % 1000 * 1000) % 1000000 ≡ u + n % 1000 * 1000 - 1000000 = omega arith in
    rw
      (
        deadline,
        get_timeval,
        add_pos u (n % 1000 * 1000),
        add_pos s (n / 1000),
        gt,
        one,
        rest,
        add_pos (s + n / 1000) 1,
      )
      (ap (λ m. record { tv_sec = pos m; tv_usec = pos (u + n % 1000 * 1000 - 1000000) })
        (omega arith))

-- From a time on, the poll that `get_timeval` is given for ends at `next_deadline` after as many
-- milliseconds as were asked for.
pub calculate_interval-deadline :
    (s u n : ℕ)
    → u < 1000000
    → n < 2 ^ 31
    → calculate_interval
        (record { tv_sec = pos s; tv_usec = pos u })
        (deadline (record { tv_sec = pos s; tv_usec = pos u }) (get_timeval (pos n)))
      ≡ pos n
calculate_interval-deadline s u n h small = elim (Bool-cases (ltb 1000000 (u + n % 1000 * 1000))) [
  | inr e ↦ rw (deadline-same s u n (ground (arith, e))) (
      calculate_interval-same s u (n / 1000) (n % 1000 * 1000) (omega arith) ∙ ap pos (omega arith))
  | inl e ↦
      let k = 1000000 - n % 1000 * 1000 - 1 in
      let v = u + n % 1000 * 1000 - 1000000 in
      let more : 1000000 < u + n % 1000 * 1000 = ground (arith, e) in
      let start : u ≡ v + suc k = omega arith in
      rw (deadline-carried s u n h more) (
        ap
          (λ w.
            calculate_interval (record { tv_sec = pos s; tv_usec = pos w })
              (record { tv_sec = pos (s + (n / 1000 + 1)); tv_usec = pos v }))
          start
        ∙ calculate_interval-borrow s v (n / 1000 + 1) k (omega arith) (omega arith)
        ∙ ap pos (omega arith))
]
