-- ===== src/CpuFreq/Remote/Domains.antt =====
-- The constructor of class CpuFreqRemote in src/cpufreq/cpufreq-remote.cpp, for the virtual cores of
-- the remote topology. `remoteCall` on a world `W` is the parameter `call`.
use mammut.Common.{
  ℕ, suc, ◌≡◌, refl, sym, ap, Option, some, none, List, [], ◌∷◌, ◌++◌, map, length, subst,
  length-append, replicate, set, ltb, if◌then◌else◌, Error, Result, ok, throw, ◌>>=◌, arith,
}
use mathlib.Core.List.{append_assoc}
use mammut.CpuFreq.Machine.{filter_virtual_cores}
use mammut.CpuFreq.Remote.{Request, Response, DomainRemote, as_frequencies, create}

-- An element of `_domains`: an object with its virtual cores, or a null pointer.
abbrev pub Place : Type 0
Place = Option (DomainRemote × List ℕ)

as_domains : {W : Type 0} → W × Response → Result (W × List (ℕ × List ℕ))
as_domains (w, Response.get_domains_res ds) = ok (w, ds)
as_domains (w, _) = throw Error.message_mismatch

-- `_domains.at(id) = ...`
put_at : List Place → ℕ → Place → Result (List Place)
put_at places id place =
    if ltb id (length places) then ok (set places id place) else throw Error.out_of_range

module _ {W : Type 0} (call : W → Request → Result (W × Response)) where
  -- The loop over the domains of the response.
  create_loop : W → List ℕ → List Place → List (ℕ × List ℕ) → Result (W × List Place)
  create_loop w vc places [] = ok (w, places)
  create_loop w vc places ((id, identifiers) ∷ ds) = create call w id >>= λ made.
      put_at places id (some (made.1, filter_virtual_cores vc identifiers)) >>= λ places'.
      create_loop made.0 vc places' ds

  -- The constructor of CpuFreqRemote.
  pub create_cpu_freq_remote : W → List ℕ → Result (W × List Place)
  create_cpu_freq_remote w vc = call w Request.get_domains >>= as_domains >>= λ got.
      create_loop got.0 vc (replicate (length got.1) none) got.1

  -- The domains are numbered from `i` on.
  abbrev pub Numbered : ℕ → List (ℕ × List ℕ) → Type 0
  Numbered i [] = Unit
  Numbered i ((id, identifiers) ∷ ds) = (id ≡ i) × Numbered (suc i) ds

  -- The object for a domain of the response.
  abbrev pub object_of : (ℕ → List ℕ) → List ℕ → ℕ × List ℕ → Place
  object_of frequencies vc (id, identifiers) = some (
    record { identifier = id; available_frequencies = frequencies id },
    filter_virtual_cores vc identifiers,
  )

  create-lem :
      (w : W) (id : ℕ) (fs : List ℕ)
      → call w (Request.get_available_frequencies id)
        ≡ ok (w, Response.get_available_frequencies_res fs)
      → create call w id ≡ ok (w, record { identifier = id; available_frequencies = fs })
  unfolding create as_frequencies
  create-lem w id fs e = rw e refl

  set-append :
      (before after : List Place) (p q : Place)
      → set (before ++ p ∷ after) (length before) q ≡ before ++ q ∷ after
  set-append [] after p q = refl
  set-append (x ∷ before) after p q = ap (◌∷◌ x) (set-append before after p q)

  put_at-next :
      (before after : List Place) (p q : Place) (id : ℕ)
      → id ≡ length before
      → put_at (before ++ p ∷ after) id q ≡ ok (before ++ q ∷ after)
  unfolding put_at
  put_at-next before after p q id e =
      rw (e, set-append before after p q) (ground (arith, length-append before (p ∷ after)))

  create_loop-Numbered :
      (w : W) (vc : List ℕ) (frequencies : ℕ → List ℕ) (before : List Place)
      (ds : List (ℕ × List ℕ))
      → Numbered (length before) ds
      → ((id : ℕ)
          → call w (Request.get_available_frequencies id)
            ≡ ok (w, Response.get_available_frequencies_res (frequencies id)))
      → create_loop w vc (before ++ replicate (length ds) none) ds
        ≡ ok (w, before ++ map (object_of frequencies vc) ds)
  unfolding create_loop
  create_loop-Numbered w vc frequencies before [] numbered answers = refl
  create_loop-Numbered w vc frequencies before ((id, identifiers) ∷ ds) (e, numbered) answers =
      let place = object_of frequencies vc (id, identifiers) in
      rw
        (
          create-lem w id (frequencies id) (answers id),
          put_at-next before (replicate (length ds) none) none place id e,
          sym (append_assoc before (place ∷ []) (replicate (length ds) none)),
          create_loop-Numbered w vc frequencies (before ++ place ∷ []) ds
              (subst (λ (k : ℕ). Numbered k ds) (omega (arith, length-append before (place ∷ [])))
                numbered)
              answers,
          append_assoc before (place ∷ []) (map (object_of frequencies vc) ds),
        )
        refl

  -- Where the server numbers its domains in their order and answers with the frequencies of each,
  -- making a CpuFreqRemote returns: it has an object for each of the domains at the domain's place,
  -- with those of the virtual cores that the domain names, and its frequencies.
  pub create_cpu_freq_remote-objects :
      (w : W) (vc : List ℕ) (frequencies : ℕ → List ℕ) (ds : List (ℕ × List ℕ))
      → call w Request.get_domains ≡ ok (w, Response.get_domains_res ds)
      → Numbered 0 ds
      → ((id : ℕ)
          → call w (Request.get_available_frequencies id)
            ≡ ok (w, Response.get_available_frequencies_res (frequencies id)))
      → create_cpu_freq_remote w vc ≡ ok (w, map (object_of frequencies vc) ds)
  unfolding create_cpu_freq_remote as_domains
  create_cpu_freq_remote-objects w vc frequencies ds e numbered answers =
      rw e (create_loop-Numbered w vc frequencies [] ds numbered answers)
