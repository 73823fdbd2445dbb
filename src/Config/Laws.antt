-- ===== src/Config/Laws.antt =====
-- internal/config/config.go: ParseFile.
use operator_for_ai_chips_on.Common.{String, ◌≡◌, refl, Result, ok, err, arith, ◌↔◌}
use operator_for_ai_chips_on.Kube.{Util}
use operator_for_ai_chips_on.Config.{Config, Files, zero_config, parse_file, parse_document}

module _ (U : Util) (fs : Files U) (path : String) where
  -- ParseFile returns the configuration `cfg` exactly if the file can be opened and its document
  -- decodes, over an empty configuration, to `cfg`.
  pub parse_file-ok :
      (cfg : Config)
      → (parse_file U fs path ≡ ok cfg)
        ↔ ((fd : fs.File) × (fs.open_file path ≡ ok fd) × (fs.decode fd zero_config ≡ ok cfg))
  unfolding parse_file parse_document
  parse_file-ok cfg = split (fs.open_file path) refl
    where
      split :
          (r : Result U.Failure fs.File)
          → fs.open_file path ≡ r
          → (parse_file U fs path ≡ ok cfg)
            ↔ ((fd : fs.File) × (fs.open_file path ≡ ok fd) × (fs.decode fd zero_config ≡ ok cfg))
      split (err e) p = (λ q. ground arith, λ q. ground arith)
      split (ok fd) p = (λ q. (fd, p, ground arith), λ (x, a, b). ground arith)
