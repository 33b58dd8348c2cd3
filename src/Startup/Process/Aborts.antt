-- ===== src/Startup/Process/Aborts.antt =====
-- When the panics of the tasks and threads of backend/src/main.rs end the process.
use denis.Base.{
  ℕ, suc, Option, none, some, List, [], ◌∷◌, ◌++◌, map, Result, ok, err, ◌≡◌, ◌↔◌, ◌⊎◌, inl, inr,
  refl, sym, ap, ◌∙◌, Option-cases,
}
use denis.Config.{SocketAddr}
use denis.Startup.Launch.{
  Socket2, Monoio, Fate, enter, run_thread, bind_reuseport, spawn_from, spawn_workers, launch,
}
use denis.Startup.Exits.{Panics, unwinds, aborts, api_task, api_ends, fate_ends, thread_ends}
use denis.Startup.Process.{Host, fates}
use denis.Startup.{Cli, monoio}
use denis.Text.{Str}

pub append-none : {A : Type 0} (xs ys : List A) → xs ++ ys ≡ [] → (xs ≡ []) × (ys ≡ [])
append-none [] ys e = (refl, e)
append-none (x ∷ xs) ys e = absurd (cc e)

pub api_ends-none :
    (panics : Panics) (bind serve : Option Str)
    → (api_ends panics (api_task bind serve) ≡ [])
      ↔ ((panics ≡ unwinds) ⊎ ((bind ≡ none) × (serve ≡ none)))
api_ends-none unwinds bind serve = (λ h. inl refl, λ g. refl)
api_ends-none aborts none none = (λ h. inr (refl, refl), λ g. refl)
api_ends-none aborts none (some e) =
    (λ h. absurd (cc h), λ g. elim g [ inl u ↦ absurd (cc u) | inr (b, s) ↦ absurd (cc s) ])
api_ends-none aborts (some e) serve =
    (λ h. absurd (cc h), λ g. elim g [ inl u ↦ absurd (cc u) | inr (b, s) ↦ absurd (cc b) ])

-- Nothing panics where the runtime can be built, and a thread without a socket does not come to it.
abbrev pub Sound : {Sock : Type 0} → Panics → Monoio Sock → Result Str Sock → Type 0
Sound panics rt sock = (panics ≡ unwinds) ⊎ ((rt.build ≡ none) ⊎ ((e : Str) × (sock ≡ err e)))

fate_ends-none :
    {Sock : Type 0} (panics : Panics) (rt : Monoio Sock) (sock : Result Str Sock)
    → (fate_ends panics (run_thread rt sock) ≡ []) ↔ Sound panics rt sock
unfolding run_thread enter
fate_ends-none unwinds rt sock = (λ h. inl refl, λ g. refl)
fate_ends-none aborts rt (err e) = (λ h. inr (inr (e, refl)), λ g. refl)
fate_ends-none aborts rt (ok s) = elim (Option-cases rt.build) [
  | inl built ↦ (λ h. inr (inl built), λ g. no_panic built)
  | inr (e, failed) ↦ (
    λ h. absurd (cc (rw (run_thread, failed) at h)),
    λ g. elim g [
      | inl u ↦ absurd (cc u)
      | inr (inl built) ↦ absurd (cc (built, failed))
      | inr (inr (t, unbound)) ↦ absurd (cc unbound)
    ],
  )
]
  where
    no_panic : rt.build ≡ none → fate_ends aborts (run_thread rt (ok s)) ≡ []
    no_panic built = elim (Option-cases (rt.from_std s)) [
      | inl taken ↦ rw (run_thread, built, enter, taken) refl
      | inr (e, left) ↦ rw (run_thread, built, enter, left) refl
    ]

module _ (calls : Socket2) (digits : ℕ → Str) {Core : Type 0} where
  abbrev all_fates : Monoio calls.Sock → SocketAddr → ℕ → List (Option Core) → List Fate
  all_fates rt addr id dp = map (λ w. run_thread rt w.std_sock) (spawn_from calls digits addr id dp)

  thread_ends-none :
      (panics : Panics) (rt : Monoio calls.Sock) (addr : SocketAddr) (id : ℕ)
      (dp : List (Option Core))
      → fate_ends panics (run_thread rt (bind_reuseport calls addr)) ≡ []
      → thread_ends panics (all_fates rt addr id dp) ≡ []
  unfolding thread_ends spawn_from
  thread_ends-none panics rt addr id [] h = refl
  thread_ends-none panics rt addr id (pin ∷ dp) h =
      rw h (thread_ends-none panics rt addr (suc id) dp h)

  fates-monoio :
      (cli : Cli) (dp : List (Option Core)) (host : Host calls.Sock Core)
      → cli.dns.runtime ≡ monoio
      → fates calls digits cli dp host ≡ all_fates host.rt cli.dns.dns_bind 0 dp
  unfolding launch spawn_workers
  fates-monoio cli dp host e = rw e refl

  pub fates-none :
      (cli : Cli) (pin : Option Core) (rest : List (Option Core)) (host : Host calls.Sock Core)
      → cli.dns.runtime ≡ monoio
      → (thread_ends host.panics (fates calls digits cli (pin ∷ rest) host) ≡ [])
        ↔ Sound host.panics host.rt (bind_reuseport calls cli.dns.dns_bind)
  unfolding thread_ends spawn_from
  fates-none cli pin rest host e =
      let addr = cli.dns.dns_bind in
      let one = fate_ends-none host.panics host.rt (bind_reuseport calls addr) in
      let same = ap (thread_ends host.panics) (fates-monoio cli (pin ∷ rest) host e) in
      (
        λ h.
            one.0
              (append-none (fate_ends host.panics (run_thread host.rt (bind_reuseport calls addr)))
                _ (sym same ∙ h)).0,
        λ g. same ∙ thread_ends-none host.panics host.rt addr 0 (pin ∷ rest) (one.1 g),
      )
