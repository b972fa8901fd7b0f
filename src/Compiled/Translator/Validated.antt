-- ===== src/Compiled/Translator/Validated.antt =====
-- Validated: what the translator answers has been validated, and is answered again.
use mongocore.Prelude.{
  Text, String, ◌≡◌, refl, sym, ap, subst, ◌∙◌, inl, inr, ◌⊎◌, Option, none, some, Result, ok, err,
  Result-cases,
}
use mongocore.Compiled.Hierarchy.{Stores}
use mongocore.Compiled.Hierarchy as Levels
use mongocore.Compiled.Hierarchy.Lookup.{get-put, get-get}
use mongocore.Compiled.Translator.{
  CompiledMql, TranslateError, validate_mql, Services, CompiledQuery, hash_of, Cache, Translator,
  Translated, compile, store_query, from_template, from_response, answered, ask_provider,
  match_template, look_up, translate, parsed_answer, parse_method_response,
}

module _ (env : Services) (stores : Stores (CompiledQuery env))
    (intent database collection : String) where
  open env use {Json, World, LlmTemplate}

  abbrev State : Type 0
  State = Translator env stores

  abbrev pub key : String
  key = env.hash intent database collection

  abbrev pub cached : State → Option (CompiledQuery env) × Cache env stores
  cached t = Levels.get (CompiledQuery env) (hash_of env) stores key t.cache

  abbrev pub IsValid : CompiledQuery env → Type 0
  IsValid query = validate_mql query.mql ≡ ok tt

  -- A query that passes the validation and is from now on in the cache under the hash of the intent;
  -- with an error nothing is stored.
  abbrev pub Fresh : Cache env stores → Translated env stores → Type 0
  Fresh before (err e, t) = t.cache ≡ before
  Fresh before (ok query, t) = IsValid query × (query.hash ≡ key) × ((cached t).0 ≡ some query)

  store_query-Fresh :
      (query : CompiledQuery env) (t : State)
      → IsValid query
      → query.hash ≡ key
      → Fresh t.cache (store_query env stores intent database collection query t)
  unfolding store_query
  store_query-Fresh query t valid h = (
    valid,
    h,
    ap
          (λ k.
            (Levels.get (CompiledQuery env) (hash_of env) stores k
              (Levels.put (CompiledQuery env) (hash_of env) stores query t.cache)).0)
          (sym h)
        ∙ get-put (CompiledQuery env) (hash_of env) stores query t.cache,
  )

  from_template-Fresh :
      (mql : Result TranslateError CompiledMql) (t : State)
      → Fresh t.cache (from_template env stores intent database collection mql t)
  unfolding from_template compile
  from_template-Fresh (err e) t = refl
  from_template-Fresh (ok mql) t = elim (Result-cases (validate_mql mql)) [
    | inr (e, h) ↦ rw (h, from_template) refl
    | inl (tt, h) ↦ rw (h, from_template) (store_query-Fresh _ t h refl)
  ]

  from_response-Fresh :
      (parsed : Result TranslateError (CompiledMql × Option LlmTemplate)) (t : State)
      → Fresh t.cache (from_response env stores intent database collection parsed t)
  unfolding from_response compile
  from_response-Fresh (err e) t = refl
  from_response-Fresh (ok (mql, template)) t = elim (Result-cases (validate_mql mql)) [
    | inr (e, h) ↦ rw (h, from_response) refl
    | inl (tt, h) ↦ rw (h, from_response) (store_query-Fresh _ _ h refl)
  ]

  ask_provider-Fresh :
      (ask : Option ((intent database collection : String) → World → Result String Text × World))
      (t : State)
      → Fresh t.cache (ask_provider env stores intent database collection ask t)
  unfolding ask_provider answered
  ask_provider-Fresh none t = refl
  ask_provider-Fresh (some ask) t =
      from_response-Fresh
        (parsed_answer env stores intent database collection
          (ask intent database collection t.world).0)
        _

  match_template-Fresh :
      (found : Option (Json × String)) (t : State)
      → Fresh t.cache (match_template env stores intent database collection found t)
  unfolding match_template
  match_template-Fresh none t = ask_provider-Fresh env.provider t
  match_template-Fresh (some (json, method)) t =
      from_template-Fresh (parse_method_response env json method) t

  -- A query that the cache gave, or a fresh one.
  abbrev pub Sound : Option (CompiledQuery env) × Cache env stores → Translated env stores → Type 0
  Sound found (err e, t) = t.cache ≡ found.1
  Sound found (ok query, t) =
      (found.0 ≡ some query) ⊎ (IsValid query × (query.hash ≡ key) × ((cached t).0 ≡ some query))

  Fresh-Sound :
      (found : Option (CompiledQuery env) × Cache env stores) (r : Translated env stores)
      → Fresh found.1 r
      → Sound found r
  Fresh-Sound found (err e, t) f = f
  Fresh-Sound found (ok query, t) f = inr f

  look_up-Sound :
      (t : State) (found : Option (CompiledQuery env) × Cache env stores)
      → Sound found (look_up env stores intent database collection t found)
  unfolding look_up
  look_up-Sound t (some query, cache) = inl refl
  look_up-Sound t (none, cache) =
      Fresh-Sound (none, cache) _
        (match_template-Fresh (env.try_match intent database collection t.world)
          (record t { cache = cache }))

  -- The answer of the translator was in the cache, or it passes the validation and is from now on in
  -- the cache under the hash of its intent; with an error nothing is stored.
  pub translate-Sound :
      (t : State)
      → Sound
          (Levels.get (CompiledQuery env) (hash_of env) stores key t.cache)
          (translate env stores intent database collection t)
  unfolding translate
  translate-Sound t = look_up-Sound t (cached t)

  look_up-hit :
      (t : State) (query : CompiledQuery env)
      (found : Option (CompiledQuery env) × Cache env stores)
      → found.0 ≡ some query
      → look_up env stores intent database collection t found
        ≡ (ok query, record t { cache = found.1 })
  unfolding look_up
  look_up-hit t query (some q, cache) h = ap (λ x. (ok x, record t { cache = cache })) (cc h)
  look_up-hit t query (none, cache) h = cc h

  Sound-of :
      (t t' : State) (query : CompiledQuery env)
      → translate env stores intent database collection t ≡ (ok query, t')
      → Sound (cached t) (ok query, t')
  Sound-of t t' query e = subst (λ r. Sound (cached t) r) e (translate-Sound t)

  -- The state after an answer has the answer in its cache.
  cached_after :
      (t t' : State) (query : CompiledQuery env)
      → translate env stores intent database collection t ≡ (ok query, t')
      → query.hash ≡ key
      → (cached t').0 ≡ some query
  unfolding translate
  cached_after t t' query e h = elim (Sound-of t t' query e) [
    | inr (valid, named, here) ↦ here
    | inl hit ↦
        let answer = look_up-hit t query (cached t) hit in
        let cache : t'.cache ≡ (cached t).1 =
          ap (λ (r : Translated env stores). r.1.cache) (sym e ∙ answer) in
        ap (λ c. (Levels.get (CompiledQuery env) (hash_of env) stores key c).0) cache
        ∙ get-get (CompiledQuery env) (hash_of env) stores key query t.cache hit h
  ]

  -- An intent that was translated is answered with the same query the next time, if the query bears
  -- the hash of the intent, and then neither the templates nor the language model are asked.
  pub translate-again :
      (t t' : State) (query : CompiledQuery env)
      → translate env stores intent database collection t ≡ (ok query, t')
      → query.hash ≡ key
      → translate env stores intent database collection t' ≡ (
        ok query,
        record t' { cache = (Levels.get (CompiledQuery env) (hash_of env) stores key t'.cache).1 },
      )
  unfolding translate
  translate-again t t' query e h = look_up-hit t' query (cached t') (cached_after t t' query e h)
