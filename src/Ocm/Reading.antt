-- ===== src/Ocm/Reading.antt =====
-- What the client reads of a component version.
use mpas_product_controller.Base.{◌≡◌, refl, ◌↔◌, inl, inr, String, List, [], ◌∷◌, ◌<>◌, arith}
use mpas_product_controller.Kube.Errors.{Error, wrap}
use mpas_product_controller.Kube.Action.{Session, Outcome-cases, ◌>>=◌, done, fails}
use mpas_product_controller.Api.{ResourceReference}
use mpas_product_controller.Ocm.{
  Call, Env, is_description, look_up, get_component_version, read_description,
  get_product_description, get_resource_data,
}

module _ {Version Resource Method Stream : Type 0} (env : Env Version Resource Method Stream) where
  -- The content of a resource.
  pub record HasContent (resource : Resource) (content : String) : Type 0 where
    pub method : Method
    pub reader : Stream
    pub stream : Stream
    pub accessed : env.access_method resource ≡ done method
    pub opened : env.reader method ≡ done reader
    pub decompressed : env.decompress reader ≡ done stream
    pub read_to_end : env.read_all stream ≡ done content

  -- The library is not asked for a version that is not valid: the run ends with an error, the
  -- repository is closed again, and there is no look-up among the calls.
  pub get_component_version_invalid :
      (url name version : String) (e : Error) (s : Session Call (Unit {0}))
      → env.open_repository s.calls url ≡ done tt
      → env.check_version version ≡ fails e
      → ((get_component_version env url name version s).0
          ≡ fails (wrap ("version " <> env.quote version <> " is invalid") e))
        × ((get_component_version env url name version s).1.calls
            ≡ Call.close_repository ∷ Call.open_repository url ∷ s.calls)
  unfolding get_component_version look_up ◌>>=◌
  get_component_version_invalid url name version e s a b = (ground arith, ground arith)

  -- A component version is returned only if the repository was opened, the version is valid and the
  -- look-up found it, and the repository is closed behind it.
  pub get_component_version_found :
      (url name version : String) (found : Version) (s : Session Call (Unit {0}))
      → (get_component_version env url name version s).0 ≡ done found
      → (env.open_repository s.calls url ≡ done tt)
        × (env.check_version version ≡ done tt)
        × (env.lookup (Call.open_repository url ∷ s.calls) name version ≡ done found)
        × ((get_component_version env url name version s).1.calls
            ≡ Call.close_repository ∷ Call.lookup name version ∷ Call.open_repository url ∷ s.calls)
  unfolding get_component_version look_up ◌>>=◌
  get_component_version_found url name version found s h =
      elim (Outcome-cases (env.open_repository s.calls url)) [
        | inl (_, a) ↦ elim (Outcome-cases (env.check_version version)) [
          | inl (_, b) ↦
              elim (Outcome-cases (env.lookup (Call.open_repository url ∷ s.calls) name version)) [
                | inl (v, c) ↦ (a, b, ground arith, ground arith)
                | inr bad ↦ absurd (ground arith)
              ]
          | inr bad ↦ absurd (ground arith)
        ]
        | inr bad ↦ absurd (ground arith)
      ]

  read_description-HasContent :
      (resource : Resource) (content : String) (s : Session Call (Unit {0}))
      → (read_description env (resource ∷ []) s).0 ≡ done content
      → HasContent resource content
  unfolding read_description ◌>>=◌
  read_description-HasContent resource content s h =
      elim (Outcome-cases (env.access_method resource)) [
        | inl (method, a) ↦ elim (Outcome-cases (env.reader method)) [
          | inl (reader, b) ↦ elim (Outcome-cases (env.decompress reader)) [
            | inl (stream, c) ↦ record {
              method = method;
              reader = reader;
              stream = stream;
              accessed = a;
              opened = b;
              decompressed = c;
              read_to_end = ground arith;
            }
            | inr bad ↦ absurd (ground arith)
          ]
          | inr bad ↦ absurd (ground arith)
        ]
        | inr bad ↦ absurd (ground arith)
      ]

  one_resource :
      (resources : List Resource) (content : String) (s : Session Call (Unit {0}))
      → (read_description env resources s).0 ≡ done content
      → (resource : Resource) × (resources ≡ resource ∷ []) × HasContent resource content
  unfolding read_description ◌>>=◌
  one_resource [] content s h = absurd (ground arith)
  one_resource (resource ∷ []) content s h =
      (resource, refl, read_description-HasContent resource content s h)
  one_resource (first ∷ second ∷ more) content s h = absurd (ground arith)

  selected :
      (version : Version) (content : String) (s : Session Call (Unit {0}))
      → (get_product_description env version s).0 ≡ done content
      → (resource : Resource) × (env.select (is_description env) version ≡ done (resource ∷ []))
        × HasContent resource content
  unfolding get_product_description ◌>>=◌
  selected version content s h = elim (Outcome-cases (env.select (is_description env) version)) [
    | inl (resources, a) ↦
        let (resource, one, has) = one_resource resources content s (ground arith) in
        (resource, ground arith, has)
    | inr bad ↦ absurd (ground arith)
  ]

  described :
      (version : Version) (content : String) (s : Session Call (Unit {0})) (resource : Resource)
      → env.select (is_description env) version ≡ done (resource ∷ [])
      → HasContent resource content
      → (get_product_description env version s).0 ≡ done content
  unfolding get_product_description read_description ◌>>=◌
  described version content s resource a has =
      ground (arith, has.accessed, has.opened, has.decompressed, has.read_to_end)

  -- A product description is returned exactly when the component version has one resource of its
  -- type, and it is the content of that resource.
  pub get_product_description_iff :
      (version : Version) (content : String) (s : Session Call (Unit {0}))
      → ((get_product_description env version s).0 ≡ done content) ↔ (
          (resource : Resource) × (env.select (is_description env) version ≡ done (resource ∷ []))
          × HasContent resource content)
  get_product_description_iff version content s =
      (selected version content s, λ (resource, a, has). described version content s resource a has)

  -- The data of a reference is the content of the resource that the reference resolves to, and the
  -- stream is closed once it is read.
  pub get_resource_data_closes :
      (version : Version) (ref : ResourceReference) (content : String) (s : Session Call (Unit {0}))
      → (get_resource_data env version ref s).0 ≡ done content
      → (resource : Resource) × (env.resolve version ref.name ref.reference_path ≡ done resource)
        × HasContent resource content
        × ((get_resource_data env version ref s).1.calls ≡ Call.close_stream ∷ s.calls)
  unfolding get_resource_data ◌>>=◌
  get_resource_data_closes version ref content s h =
      elim (Outcome-cases (env.resolve version ref.name ref.reference_path)) [
        | inl (resource, r) ↦ elim (Outcome-cases (env.access_method resource)) [
          | inl (method, a) ↦ elim (Outcome-cases (env.reader method)) [
            | inl (reader, b) ↦ elim (Outcome-cases (env.decompress reader)) [
              | inl (stream, c) ↦ elim (Outcome-cases (env.read_all stream)) [
                | inl (text, d) ↦ (
                  resource,
                  r,
                  record {
                    method = method;
                    reader = reader;
                    stream = stream;
                    accessed = a;
                    opened = b;
                    decompressed = c;
                    read_to_end = ground arith;
                  },
                  ground arith,
                )
                | inr bad ↦ absurd (ground arith)
              ]
              | inr bad ↦ absurd (ground arith)
            ]
            | inr bad ↦ absurd (ground arith)
          ]
          | inr bad ↦ absurd (ground arith)
        ]
        | inr bad ↦ absurd (ground arith)
      ]
