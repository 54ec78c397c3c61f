-- ===== src/Realtime/Order.antt =====
-- The order in which the hooks were mounted does not matter.
use mathlib.Core.List.{Permᴰ as Perm}
use emailjachai.Common.{
  String, ◌≡◌, refl, sym, ap, subst, ◌∙◌, arith, false, List, eq_iff, str_eq, Bool-cases, inl, inr,
}
use emailjachai.Realtime.LogFields.{Clock}
use emailjachai.Realtime.{Casts, Hook, Page, listen, dispatch}

-- Whether a text is one of those given, or is told apart from it.
is_text_or : (P : String → Type 0) (t lit : String) → P lit → (str_eq t lit ≡ false → P t) → P t
is_text_or P t lit p other = elim (Bool-cases (str_eq t lit)) [
  | inl e ↦ subst P (sym ((eq_iff t lit).0 e)) p
  | inr e ↦ other e
]

module _ {Json : Type 0} (casts : Casts Json) where
  -- No hook listens for other types.
  listen_other :
      (h : Hook) (type : String) (d : Json) (c : Clock) (s : Page)
      → str_eq type "credit_update" ≡ false
      → str_eq type "user_update" ≡ false
      → str_eq type "user_stats_update" ≡ false
      → str_eq type "job_update" ≡ false
      → str_eq type "system_log_update" ≡ false
      → str_eq type "security_log" ≡ false
      → str_eq type "blocklist_update" ≡ false
      → str_eq type "server_list_update" ≡ false
      → str_eq type "worker_update" ≡ false
      → str_eq type "admin_stats_update" ≡ false
      → str_eq type "system_metrics" ≡ false
      → listen casts h type d c s ≡ s
  unfolding listen
  listen_other h type d c s e0 e1 e2 e3 e4 e5 e6 e7 e8 e9 e10 = ground arith

  listen-listen :
      (h k : Hook) (d : Json) (c : Clock) (s : Page) (type : String)
      → listen casts h type d c (listen casts k type d c s)
        ≡ listen casts k type d c (listen casts h type d c s)
  unfolding listen
  listen-listen h k d c s type = is_text_or same type "credit_update" (ground arith) (λ e0.
      is_text_or same type "user_update" (ground arith) (λ e1.
        is_text_or same type "user_stats_update" (ground arith) (λ e2.
          is_text_or same type "job_update" (ground arith) (λ e3.
            is_text_or same type "system_log_update" (ground arith) (λ e4.
              is_text_or same type "security_log" (ground arith) (λ e5.
                is_text_or same type "blocklist_update" (ground arith) (λ e6.
                  is_text_or same type "server_list_update" (ground arith) (λ e7.
                    is_text_or same type "worker_update" (ground arith) (λ e8.
                      is_text_or same type "admin_stats_update" (ground arith) (λ e9.
                        is_text_or same type "system_metrics" (ground arith) (λ e10.
                          listen_other h type d c _ e0 e1 e2 e3 e4 e5 e6 e7 e8 e9 e10
                          ∙ ap (listen casts k type d c) (
                              sym (
                                listen_other h type d c s e0 e1 e2 e3 e4 e5 e6 e7 e8 e9
                                  e10)))))))))))))
    where
      same : String → Type 0
      same t =
          listen casts h t d c (listen casts k t d c s)
          ≡ listen casts k t d c (listen casts h t d c s)

  -- However the hooks of a page were mounted, one after the other, a message leaves the same stores and
  -- the same chart: the same hooks in another order, each as often as before, do the same.
  pub dispatch-Perm :
      {hs ks : List Hook} (type : String) (d : Json) (c : Clock) (s : Page)
      → Perm hs ks
      → dispatch casts hs type d c s ≡ dispatch casts ks type d c s
  unfolding dispatch
  dispatch-Perm type d c s Perm.nil = refl
  dispatch-Perm type d c s (Perm.cons {b = k} {l₁ = xs} e p) =
      ap (λ x. dispatch casts xs type d c (listen casts x type d c s)) e
      ∙ dispatch-Perm type d c (listen casts k type d c s) p
  dispatch-Perm type d c s (Perm.swap {a = h} {b = k} {a' = x} {l = xs} e f) =
      ap (dispatch casts xs type d c) (
        listen-listen k h d c s type
        ∙ ap (λ y. listen casts h type d c (listen casts y type d c s)) f
        ∙ ap (λ y. listen casts y type d c (listen casts x type d c s)) e)
  dispatch-Perm type d c s (Perm.trans p q) =
      dispatch-Perm type d c s p ∙ dispatch-Perm type d c s q
