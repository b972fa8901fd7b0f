-- ===== src/Ingestion/Reader.antt =====
-- src/ingestion/reader.rs: the format of a file and how it is read. The readers belong to the polars
-- crate; the extension of a path, in lower case, comes from the standard library.
use Prim.Native.String.{◌++◌ as str_append}
use mongocore.Prelude.{
  ℕ, if◌then◌else◌, String, str_eq, Bool, true, ◌||◌, Option, none, some, Result, ok, err, ◌>>=◌,
  map_err,
}
use mongocore.Operations.Driver.{MongoCoreError, ingestion_error}

pub data FileFormat : Type 0 where
  auto csv json nd_json parquet : FileFormat

pub record CsvOptions : Type 0 where
  pub delimiter : Option ℕ
  pub quote_char : Option ℕ
  pub has_header : Option Bool
  pub comment_char : Option ℕ

abbrev pub default_csv_options : CsvOptions
default_csv_options = record {
  delimiter = none;
  quote_char = none;
  has_header = some true;
  comment_char = none;
}

pub record Readers : Type 1 where
  pub LazyFrame : Type 0
  pub CsvReader : Type 0
  pub extension : (path : String) → String
  pub new_csv : (path : String) → CsvReader
  pub with_separator : ℕ → CsvReader → CsvReader
  pub with_quote_char : ℕ → CsvReader → CsvReader
  pub with_has_header : Bool → CsvReader → CsvReader
  pub with_comment_prefix : ℕ → CsvReader → CsvReader
  pub finish_csv : CsvReader → Result String LazyFrame
  pub json_lines : (path : String) → Result String LazyFrame
  pub scan_parquet : (path : String) → Result String LazyFrame

-- `if let Some(value) = option { … }`.
abbrev pub when_some : {A B : Type 0} → Option A → (A → B → B) → B → B
when_some none f b = b
when_some (some a) f b = f a b

module _ (readers : Readers) where
  open readers use {
    LazyFrame, CsvReader, extension, new_csv, with_separator, with_quote_char, with_has_header,
    with_comment_prefix, finish_csv, json_lines, scan_parquet,
  }

  unfoldable pub format_named : String → Result MongoCoreError FileFormat
  format_named ext =
      if str_eq ext "csv" || str_eq ext "tsv"
      then ok csv
      else if str_eq ext "json"
      then ok json
      else if str_eq ext "ndjson" || str_eq ext "jsonl"
      then ok nd_json
      else if str_eq ext "parquet" || str_eq ext "pq"
      then ok parquet
      else err (ingestion_error (str_append "Unknown file extension: '" (str_append ext "'")))

  unfoldable pub detect_format : String → Result MongoCoreError FileFormat
  detect_format path = format_named (extension path)

  unfoldable pub csv_reader : String → CsvOptions → CsvReader
  csv_reader path options = when_some options.comment_char with_comment_prefix (
      when_some options.has_header with_has_header (
        when_some options.quote_char with_quote_char
          (when_some options.delimiter with_separator (new_csv path))))

  -- `detect_format` never answers `auto`.
  unfoldable pub read_as : String → CsvOptions → FileFormat → Result MongoCoreError LazyFrame
  unfolding csv_reader
  read_as path options csv = map_err ingestion_error (finish_csv (csv_reader path options))
  read_as path options json = map_err ingestion_error (json_lines path)
  read_as path options nd_json = map_err ingestion_error (json_lines path)
  read_as path options parquet = map_err ingestion_error (scan_parquet path)
  read_as path options auto = err (ingestion_error "unreachable")

  unfoldable pub resolved_format : String → FileFormat → Result MongoCoreError FileFormat
  unfolding detect_format
  resolved_format path auto = detect_format path
  resolved_format path format = ok format

  unfoldable pub read_lazy : String → FileFormat → CsvOptions → Result MongoCoreError LazyFrame
  unfolding resolved_format read_as
  read_lazy path format options = resolved_format path format >>= λ f. read_as path options f
