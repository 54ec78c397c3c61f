-- ===== src/Realtime/Chart.antt =====
-- frontend/app/admin/monitoring/page.tsx: the last twenty measurements of the servers.
use Prim.Native.Nat.{min}
use emailjachai.Common.{
  ℕ, zero, suc, ◌+◌, ◌-◌, ◌≤◌, String, ◌≡◌, refl, sym, ap, ◌∙◌, Option, List, [], ◌∷◌, ◌++◌, arith,
  length, length-append, append_snoc, append_nil,
}
use emailjachai.Common.Text.{nullish}

-- Loads are whole numbers.
pub record MetricPoint : Type 0 where
  pub time : String
  pub cpu : ℕ
  pub ram : ℕ
  pub latency : ℕ

pub record MetricsPayload : Type 0 where
  pub cpu_load : Option ℕ
  pub ram_usage : Option ℕ
  pub latency_ms : Option ℕ
  pub requests_per_sec : Option ℕ

pub record CurrentMetrics : Type 0 where
  pub cpu : ℕ
  pub ram : ℕ
  pub latency : ℕ
  pub reqs : ℕ

pub record Metrics : Type 0 where
  pub metrics : List MetricPoint
  pub current : CurrentMetrics

unfoldable pub init : Metrics
init = record { metrics = []; current = record { cpu = 0; ram = 0; latency = 0; reqs = 0 } }

abbrev pub drop {ℓ} : {A : Type ℓ} → ℕ → List A → List A
drop zero xs = xs
drop (suc n) [] = []
drop (suc n) (x ∷ xs) = drop n xs

-- `xs.slice(-n)`, for n above zero.
abbrev pub last_of {ℓ} : {A : Type ℓ} → ℕ → List A → List A
last_of n xs = drop (length xs - n) xs

-- What one message shows, at the time of day `time`.
abbrev pub point : String → MetricsPayload → MetricPoint
point time d = record {
  time = time;
  cpu = nullish d.cpu_load 0;
  ram = nullish d.ram_usage 0;
  latency = nullish d.latency_ms 0;
}

unfoldable pub handle_metrics_update : String → MetricsPayload → Metrics → Metrics
handle_metrics_update time d s = record {
  metrics = last_of 19 s.metrics ++ (point time d ∷ []);
  current = record {
    cpu = nullish d.cpu_load 0;
    ram = nullish d.ram_usage 0;
    latency = nullish d.latency_ms 0;
    reqs = nullish d.requests_per_sec 0;
  };
}

unfoldable pub run : List (String × MetricsPayload) → Metrics → Metrics
unfolding handle_metrics_update
run [] s = s
run ((time, d) ∷ rest) s = run rest (handle_metrics_update time d s)

abbrev pub points : List (String × MetricsPayload) → List MetricPoint
points [] = []
points ((time, d) ∷ rest) = point time d ∷ points rest

add_suc : (m n : ℕ) → suc (m + n) ≡ m + suc n
add_suc m n = omega arith

module _ {A : Type 0} where
  length-drop : (n : ℕ) (xs : List A) → length (drop n xs) ≡ length xs - n
  length-drop zero xs = omega arith
  length-drop (suc n) [] = omega arith
  length-drop (suc n) (x ∷ xs) = omega (arith, length-drop n xs)

  drop-append : (n : ℕ) (xs ys : List A) → n ≤ length xs → drop n (xs ++ ys) ≡ drop n xs ++ ys
  drop-append zero xs ys h = refl
  drop-append (suc n) [] ys h = absurd (omega arith)
  drop-append (suc n) (x ∷ xs) ys h = drop-append n xs ys (omega arith)

  drop_nil : (n : ℕ) → drop {A = A} n [] ≡ []
  drop_nil zero = refl
  drop_nil (suc n) = refl

  drop-drop : (m n : ℕ) (xs : List A) → drop m (drop n xs) ≡ drop (m + n) xs
  drop-drop m zero xs = ap (λ k. drop k xs) (omega arith)
  drop-drop m (suc n) [] = drop_nil m ∙ sym (drop_nil (m + suc n))
  drop-drop m (suc n) (x ∷ xs) = drop-drop m n xs ∙ ap (λ k. drop k (x ∷ xs)) (add_suc m n)

  -- The last twenty with one more are the last nineteen of the last twenty and the new one.
  last_of-snoc :
      (xs : List A) (x : A) → last_of 19 (last_of 20 xs) ++ (x ∷ []) ≡ last_of 20 (xs ++ (x ∷ []))
  last_of-snoc xs x =
      ap (λ k. drop k (last_of 20 xs) ++ (x ∷ [])) (omega (arith, length-drop (length xs - 20) xs))
      ∙ ap (λ ys. ys ++ (x ∷ [])) (drop-drop (min (length xs - 19) 1) (length xs - 20) xs)
      ∙ ap (λ k. drop k xs ++ (x ∷ [])) (omega arith)
      ∙ sym (drop-append (length xs - 19) xs (x ∷ []) (omega arith))
      ∙ ap (λ k. drop k (xs ++ (x ∷ []))) (omega (arith, length-append xs (x ∷ [])))

run_from-metrics :
    (xs : List (String × MetricsPayload)) (seen : List MetricPoint) (s : Metrics)
    → s.metrics ≡ last_of 20 seen
    → (run xs s).metrics ≡ last_of 20 (seen ++ points xs)
unfolding run handle_metrics_update
run_from-metrics [] seen s h = h ∙ ap (last_of 20) (sym (append_nil seen))
run_from-metrics ((time, d) ∷ xs) seen s h =
    run_from-metrics xs (seen ++ (point time d ∷ [])) _
      (ap (λ ys. last_of 19 ys ++ (point time d ∷ [])) h ∙ last_of-snoc seen (point time d))
    ∙ ap (last_of 20) (append_snoc seen (point time d) (points xs))

-- After any sequence of messages, the chart shows the last twenty measurements of the whole sequence,
-- in the order of their arrival, or all of them where there are fewer.
pub run-metrics :
    (xs : List (String × MetricsPayload)) → (run xs init).metrics ≡ last_of 20 (points xs)
unfolding init
run-metrics xs = run_from-metrics xs [] init refl
