-- ===== src/Service/Barriers.antt =====
-- The requests of src/service.rs as the capture task serves them (src/capture.rs), in the order in
-- which they were sent, and what the barriers are to be. The task's own list `captures`, which it reads
-- when a session starts again, is left out.
use lan_mouse_pro.Common.{
  ℕ, ◌≡◌, ◌≢◌, refl, sym, ap, ◌∙◌, if◌then◌else◌, Option, none, some, List, [], ◌∷◌, ◌++◌,
}
use lan_mouse_pro.Capture.Barriers.{Backend, InputCapture}
use lan_mouse_pro.Capture.Barriers
use lan_mouse_pro.Capture.Invariant.{IsValid}
use lan_mouse_pro.Capture.Operations.{key_of_id, IsPut, IsGone, create-IsPut, destroy-IsGone}
use lan_mouse_pro.Capture.Run.{
  Run, done, ◌>>=◌, Safe, Safe-bind, Safe-mono, bind_done, bind_regroup,
}
use lan_mouse_pro.Client.Manager.{Entry, key_of}
use lan_mouse_pro.Client.Slab.{Slab}
use lan_mouse_pro.Client.Types.{BarrierKey}
use lan_mouse_pro.Service.Handlers.{Effect, Service, send}
use native.Mathlib.Decide.{ℕ_discrete}

module _ {B : Type 0} (backend : Backend B) where
  unfoldable pub serve : Effect → InputCapture B → Run (InputCapture B)
  serve (Effect.create_barrier handle key) ic = Barriers.create backend handle key ic
  serve (Effect.destroy_barrier handle) ic = Barriers.destroy backend handle ic
  serve _ ic = done ic

  unfoldable pub serve_log : List Effect → InputCapture B → Run (InputCapture B)
  unfolding serve
  serve_log [] ic = done ic
  serve_log (e ∷ es) ic = serve e ic >>= serve_log es

  pub serve_log-last :
      (es : List Effect) (e : Effect) (ic : InputCapture B)
      → serve_log (es ++ (e ∷ [])) ic ≡ (serve_log es ic >>= serve e)
  unfolding serve_log
  serve_log-last [] e ic = bind_done (serve e ic) (λ ic'. refl)
  serve_log-last (x ∷ es) e ic =
      bind_regroup (serve_log es) (serve e) (serve x ic) (λ ic'. serve_log-last es e ic')

-- The barrier that a client is to have: none unless it is active.
unfoldable pub barrier_of : (slab : Slab Entry) → Option Entry → Option BarrierKey
barrier_of slab none = none
barrier_of slab (some e) = if e.1.active then some (key_of slab e) else none

module _ (slab : Slab Entry) {B : Type 0} (backend : Backend B) (start : InputCapture B) where
  -- The requests sent so far do not panic, and unless the backend fails they lead to barriers that
  -- satisfy P.
  abbrev pub After : (InputCapture B → Type 0) → Service slab → Type 0
  After P sv = Safe P (serve_log backend sv.log start)

  pub After-send :
      (P Q : InputCapture B → Type 0) (e : Effect) (sv : Service slab)
      → After P sv
      → ((ic : InputCapture B) → P ic → Safe Q (serve backend e ic))
      → After Q (send slab e sv)
  unfolding send
  After-send P Q e sv before next =
      rw (serve_log-last backend sv.log e start)
        (Safe-bind P Q (serve backend e) (serve_log backend sv.log start) before next)

  -- Every client has the barrier that it is to have, and there is no other.
  abbrev pub Armed : slab.S → InputCapture B → Type 0
  Armed cm ic = IsValid ic × ((q : ℕ) → key_of_id q ic.id_map ≡ barrier_of slab (slab.get q cm))

  -- So it is for the clients but one, which has some barrier where it is active.
  abbrev pub ArmedBut : ℕ → slab.S → InputCapture B → Type 0
  ArmedBut h cm ic =
      IsValid ic
      × (((q : ℕ) → h ≢ q → key_of_id q ic.id_map ≡ barrier_of slab (slab.get q cm))
          × ((barrier_of slab (slab.get h cm) ≡ none → key_of_id h ic.id_map ≡ none)
              × ((key : BarrierKey)
                  → barrier_of slab (slab.get h cm) ≡ some key
                  → (old : BarrierKey) × (key_of_id h ic.id_map ≡ some old))))

  pub Armed-ArmedBut : (h : ℕ) (cm : slab.S) (ic : InputCapture B) → Armed cm ic → ArmedBut h cm ic
  Armed-ArmedBut h cm ic armed =
      (armed.0, ((λ q _. armed.1 q), ((λ p. armed.1 h ∙ p), λ key p. (key, armed.1 h ∙ p))))

  -- A barrier is taken down.
  pub destroyed :
      (h : ℕ) (cm : slab.S) (old : slab.S) (key : BarrierKey) (ic : InputCapture B)
      → ArmedBut h old ic
      → barrier_of slab (slab.get h old) ≡ some key
      → barrier_of slab (slab.get h cm) ≡ none
      → ((q : ℕ) → h ≢ q → slab.get q cm ≡ slab.get q old)
      → Safe (Armed cm) (serve backend (Effect.destroy_barrier h) ic)
  unfolding serve
  destroyed h cm old key ic armed was now others =
      let (at, here) = armed.1.1.1 key was in
      Safe-mono (IsGone h ic) (Armed cm) _ (destroy-IsGone backend h at ic armed.0 here)
        (λ after gone. (
          gone.0,
          λ q. elim (ℕ_discrete h q) [
            | yes p ↦ rw (sym p) (gone.1.0 ∙ sym now)
            | no p ↦ gone.1.1 q p ∙ armed.1.0 q p ∙ sym (ap (barrier_of slab) (others q p))
          ],
        ))

  -- A barrier is put up.
  pub created :
      (h : ℕ) (cm : slab.S) (old : slab.S) (key : BarrierKey) (ic : InputCapture B)
      → Armed old ic
      → barrier_of slab (slab.get h old) ≡ none
      → barrier_of slab (slab.get h cm) ≡ some key
      → ((q : ℕ) → h ≢ q → slab.get q cm ≡ slab.get q old)
      → Safe (Armed cm) (serve backend (Effect.create_barrier h key) ic)
  unfolding serve
  created h cm old key ic armed was now others =
      Safe-mono (IsPut h key ic) (Armed cm) _
        (create-IsPut backend h key ic armed.0 (armed.1 h ∙ was))
        (λ after put. (
          put.0,
          λ q. elim (ℕ_discrete h q) [
            | yes p ↦ rw (sym p) (put.1.0 ∙ sym now)
            | no p ↦ put.1.1 q p ∙ armed.1 q ∙ sym (ap (barrier_of slab) (others q p))
          ],
        ))

  -- Nothing is taken down where no barrier stood.
  pub quiet :
      (h : ℕ) (cm : slab.S) (old : slab.S) (ic : InputCapture B)
      → ArmedBut h old ic
      → barrier_of slab (slab.get h old) ≡ none
      → barrier_of slab (slab.get h cm) ≡ none
      → ((q : ℕ) → h ≢ q → slab.get q cm ≡ slab.get q old)
      → Armed cm ic
  quiet h cm old ic armed was now others = (
    armed.0,
    λ q. elim (ℕ_discrete h q) [
      | yes p ↦ rw (sym p) (armed.1.1.0 was ∙ sym now)
      | no p ↦ armed.1.0 q p ∙ sym (ap (barrier_of slab) (others q p))
    ],
  )
