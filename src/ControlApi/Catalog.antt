-- ===== src/ControlApi/Catalog.antt =====
-- The model catalog: ListModels of apps/control-api/internal/catalog/client.go and ListCatalog of
-- apps/control-api/internal/handler/handler.go.
use openserve.Prelude.{
  zero, ℕ, ◌==◌, Bytes, codes, bytes_eq, map, List, [], ◌∷◌, ◌++◌, Option, none, some,
  if◌then◌else◌,
}
use openserve.Prelude.Words.{ℤ, pos}
use openserve.ControlApi.Tables.{Fields, text, texts, integer}
use openserve.ControlApi.Database.{
  Action, Response, Body, array, json_null, respond, http_error, give, some_or, ◌>>=◌,
}

pub record Model : Type 0 where
  pub id : Bytes
  pub name : Bytes
  pub family : Bytes
  pub parameter_count : Bytes
  pub license : Bytes
  pub min_gpu_class : Bytes
  pub max_context_len : ℤ
  pub description : Bytes
  pub tags : List Bytes
  pub recommended_vllm_args : List Bytes
  pub hf_repo : Bytes
  pub downloads : ℤ

-- What the JSON decoder gives for a list of models: an error, a nil slice or a slice.
abbrev pub Decoded : Type 0
Decoded = Option (Option (List Model))

-- `answer` is that of the catalog service, its status and its body, `embedded` the file in the
-- binary.
module _ (decode : Bytes → Decoded) (embedded : Option Bytes) where
  unfoldable pub load_default_catalog : Decoded
  load_default_catalog = elim embedded [ none ↦ none | some data_read ↦ decode data_read ]

  or_default : Decoded → Decoded
  unfolding load_default_catalog
  or_default none = load_default_catalog
  or_default (some models) = some models

  read_models : Option Bytes → Decoded
  unfolding or_default load_default_catalog
  read_models none = load_default_catalog
  read_models (some body) = or_default (decode body)

  unfoldable pub list_models : Option (ℕ × Option Bytes) → Decoded
  unfolding read_models load_default_catalog
  list_models none = load_default_catalog
  list_models (some (status, body)) =
      if status == 200 then read_models body else load_default_catalog

-- The fields with `omitempty` are left out where they are zero.
abbrev optional_repo : Bytes → Fields
optional_repo repo = if bytes_eq repo [] then [] else (codes "hfRepo", text repo) ∷ []

abbrev optional_downloads : ℤ → Fields
optional_downloads (pos zero) = []
optional_downloads n = (codes "downloads", integer n) ∷ []

abbrev model_fields : Model → Fields
model_fields x =
    (codes "id", text x.id)
    ∷ (codes "name", text x.name)
    ∷ (codes "family", text x.family)
    ∷ (codes "parameterCount", text x.parameter_count)
    ∷ (codes "license", text x.license)
    ∷ (codes "minGPUClass", text x.min_gpu_class)
    ∷ (codes "contextLength", integer x.max_context_len)
    ∷ (codes "description", text x.description)
    ∷ (codes "tags", texts x.tags)
    ∷ (codes "recommendedVLLMArgs", texts x.recommended_vllm_args)
    ∷ (optional_repo x.hf_repo ++ optional_downloads x.downloads)

abbrev models_body : Option (List Model) → Body
models_body none = json_null
models_body (some models) = array (map model_fields models)

unfoldable pub list_catalog : Decoded → Action Response
list_catalog decoded = do
  models ← some_or (http_error 500 (codes "failed to list models")) decoded
  give (respond 200 (models_body models))
