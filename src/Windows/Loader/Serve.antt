-- ===== src/Windows/Loader/Serve.antt =====
-- The ten functions of host/fastrpc_windows.c return, and call no null pointer.

use cdsp_peak.Base.{ℕ, ◌-◌, ◌^◌, ◌≡◌, refl, inl, inr, Option, some, ltb, Bool-cases, Option-cases}
use cdsp_peak.Base.Int.{ℤ, negsuc, nonzero}
use cdsp_peak.Windows.System.{
  Windows, Symbol, handle64_open, handle64_invoke, handle64_close, handle_control, handle64_control,
  session_control, alloc, alloc2, free, to_fd, Call, call_open, call_invoke, call_close,
  call_handle_control, call_handle64_control, call_session_control, call_alloc, call_alloc2,
  call_free, call_to_fd, Sys,
}
use cdsp_peak.Windows.Loader.{
  Loader, ensure_cdsprpc_loaded, call_through, guarded, returned, null, serve, remote_handle64_open,
  remote_handle64_invoke, remote_handle64_close, remote_handle_control, remote_handle64_control,
  remote_session_control, rpcmem_alloc, rpcmem_alloc2, rpcmem_free, rpcmem_to_fd,
}
use cdsp_peak.Windows.Loader.Laws.{IsLoaded, IsSound, ensure-IsSound}

module _ (w : Windows) where
  -- A result, and a loader in which every required function is there once its status is success.
  abbrev pub Answers : Option (ℤ × Loader × Sys w) → Type 0
  Answers o = (r : ℤ × Loader × Sys w) × (o ≡ some r) × IsSound w r.1

  guarded-Answers :
      (s : Symbol) (on_error : ℤ → ℤ) (c : Call) (l : Loader) (sys : Sys w)
      → IsSound w l
      → ((l' : Loader) → IsLoaded w l' → (p : ℕ) × (l'.slots s ≡ some p))
      → Answers (guarded w s on_error c l sys)
  unfolding guarded call_through
  guarded-Answers s on_error c l sys sound there =
      let r = ensure_cdsprpc_loaded w l sys in
      let (loaded, sound') = ensure-IsSound w l sys sound in
      elim (Bool-cases (nonzero r.0)) [
        | inl e ↦ rw (guarded, e) (_, refl, sound')
        | inr e ↦
            let (p, f) = there r.1 (loaded e) in rw (guarded, e, call_through, f) (_, refl, sound')
      ]

  rpcmem_alloc2-Answers :
      (heapid : ℤ) (flags size : ℕ) (l : Loader) (sys : Sys w)
      → IsSound w l
      → Answers (rpcmem_alloc2 w heapid flags size l sys)
  unfolding rpcmem_alloc2 call_through
  rpcmem_alloc2-Answers heapid flags size l sys sound =
      let r = ensure_cdsprpc_loaded w l sys in
      let (loaded, sound') = ensure-IsSound w l sys sound in
      elim (Bool-cases (nonzero r.0)) [
        | inl e ↦ rw (rpcmem_alloc2, e) (_, refl, sound')
        | inr e ↦ elim (Option-cases (r.1.slots alloc2)) [
          | inr (p, f) ↦ rw (rpcmem_alloc2, e, f) (_, refl, sound')
          | inl f ↦ elim (Bool-cases (ltb (2 ^ 31 - 1) size)) [
            | inl g ↦ rw (rpcmem_alloc2, e, f, g) (_, refl, sound')
            | inr g ↦
                let (library, there, slots) = loaded e in
                let (p, h, i) = slots.1.1.1.1.1.1.0 in
                rw (rpcmem_alloc2, e, f, g, h) (_, refl, sound')
          ]
        ]
      ]

  -- Whatever the library lacks and wherever it is looked for, each of the ten functions returns and
  -- calls no null pointer, from a loader that is not tried yet or sound, and leaves a sound one: if its
  -- status is success, the nine required functions are those of the library that is loaded.
  pub serve-Answers :
      (c : Call) (l : Loader) (sys : Sys w) → IsSound w l → Answers (serve w c l sys)
  unfolding serve remote_handle64_open remote_handle64_invoke remote_handle64_close
      remote_handle_control remote_handle64_control remote_session_control rpcmem_alloc rpcmem_free
      rpcmem_to_fd
  serve-Answers (call_open name ph) l sys sound =
      guarded-Answers handle64_open (returned w) (call_open name ph) l sys sound
        (λ l' h. (h.2.0.0, h.2.0.1))
  serve-Answers (call_invoke h scalars pra) l sys sound =
      guarded-Answers handle64_invoke (returned w) (call_invoke h scalars pra) l sys sound
        (λ l' h. (h.2.1.0.0, h.2.1.0.1))
  serve-Answers (call_close h) l sys sound =
      guarded-Answers handle64_close (returned w) (call_close h) l sys sound
        (λ l' h. (h.2.1.1.0.0, h.2.1.1.0.1))
  serve-Answers (call_handle_control req payload datalen) l sys sound =
      guarded-Answers handle_control (returned w) (call_handle_control req payload datalen) l sys
        sound (λ l' h. (h.2.1.1.1.0.0, h.2.1.1.1.0.1))
  serve-Answers (call_handle64_control h req payload datalen) l sys sound =
      guarded-Answers handle64_control (returned w) (call_handle64_control h req payload datalen) l
        sys sound (λ l' h. (h.2.1.1.1.1.0.0, h.2.1.1.1.1.0.1))
  serve-Answers (call_session_control req payload datalen) l sys sound =
      guarded-Answers session_control (returned w) (call_session_control req payload datalen) l sys
        sound (λ l' h. (h.2.1.1.1.1.1.0.0, h.2.1.1.1.1.1.0.1))
  serve-Answers (call_alloc heapid flags size) l sys sound =
      guarded-Answers alloc (null w) (call_alloc heapid flags size) l sys sound
        (λ l' h. (h.2.1.1.1.1.1.1.0.0, h.2.1.1.1.1.1.1.0.1))
  serve-Answers (call_alloc2 heapid flags size) l sys sound =
      rpcmem_alloc2-Answers heapid flags size l sys sound
  serve-Answers (call_free po) l sys sound =
      guarded-Answers free (null w) (call_free po) l sys sound
        (λ l' h. (h.2.1.1.1.1.1.1.1.0.0, h.2.1.1.1.1.1.1.1.0.1))
  serve-Answers (call_to_fd po) l sys sound =
      guarded-Answers to_fd (λ err. negsuc 0) (call_to_fd po) l sys sound
        (λ l' h. (h.2.1.1.1.1.1.1.1.1.0.0, h.2.1.1.1.1.1.1.1.1.0.1))
