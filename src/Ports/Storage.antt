-- ===== src/Ports/Storage.antt =====
-- ports/storage/storage.go: the data and the interface, with the calls that a suite makes and what it
-- sees of a reply. A body is what io.ReadAll gives of it, bytes are a text and `int64(len(data))` the
-- text's length in bytes; `UpdatedAt` is a time in nanoseconds, zero for none.
pub mod Reference
pub mod Objects
pub mod Pages
pub mod Prefix
pub mod Walk
pub mod Suite
pub mod Laws
use go_ddd_core.Prelude.{ℕ, String, Option, none, some, List, []}
use go_ddd_core.Prelude.Int.{ℤ, pos}
use go_ddd_core.Prelude.Dict.{Dict}
use go_ddd_core.Errors.{Error, plain}
use go_ddd_core.Ports.Contexts.{Context, Failure, observe_option}

pub record ObjectInfo : Type 0 where
  pub key : String
  pub size : ℤ
  pub content_type : String
  pub etag : String
  pub updated_at : ℕ
  pub metadata : Dict String

-- `ObjectInfo{}`
abbrev pub no_info : ObjectInfo
no_info = record {
  key = "";
  size = pos 0;
  content_type = "";
  etag = "";
  updated_at = 0;
  metadata = [];
}

pub record PutOptions : Type 0 where
  pub content_type : String
  pub metadata : Dict String

pub record ListOptions : Type 0 where
  pub prefix : String
  pub token : String
  pub limit : ℤ

pub record ListPage : Type 0 where
  pub objects : List ObjectInfo
  pub next_token : String

-- `ListPage{}`
abbrev pub no_page : ListPage
no_page = record { objects = []; next_token = "" }

-- `ErrNotFound`
abbrev pub err_not_found : Error
err_not_found = plain "storage: object not found"

-- What `io.ReadAll(body)` gives: the bytes, or an error.
pub data Reader : Type 0 where
  reads : String → Reader
  breaks : Error → Reader

-- `ObjectStorage`, of an implementation with the state `S`; a reader that is returned stands for its
-- bytes.
pub record ObjectStorage (S : Type 0) : Type 0 where
  pub put : Context → String → Reader → ℤ → PutOptions → S → S × Option Error
  pub get : Context → String → S → S × (String × ObjectInfo × Option Error)
  pub stat : Context → String → S → S × (ObjectInfo × Option Error)
  pub delete : Context → String → S → S × Option Error
  pub list : Context → ListOptions → S → S × (ListPage × Option Error)

pub data StorageCall : Type 0 where
  put : Context → String → Reader → ℤ → PutOptions → StorageCall
  get : Context → String → StorageCall
  stat : Context → String → StorageCall
  delete : Context → String → StorageCall
  list : Context → ListOptions → StorageCall

abbrev pub StorageReply : StorageCall → Type 0
StorageReply (put ctx key body size opts) = Option Failure
StorageReply (get ctx key) = String × ObjectInfo × Option Failure
StorageReply (stat ctx key) = ObjectInfo × Option Failure
StorageReply (delete ctx key) = Option Failure
StorageReply (list ctx opts) = ListPage × Option Failure

abbrev sentinel_text : String
sentinel_text = "storage: object not found"

abbrev pub storage_step :
    {S : Type 0} → ObjectStorage S → (c : StorageCall) → S → S × StorageReply c
storage_step o (put ctx key body size opts) s =
    let (s', e) = o.put ctx key body size opts s in (s', observe_option sentinel_text e)
storage_step o (get ctx key) s =
    let (s', (b, i, e)) = o.get ctx key s in (s', (b, i, observe_option sentinel_text e))
storage_step o (stat ctx key) s =
    let (s', (i, e)) = o.stat ctx key s in (s', (i, observe_option sentinel_text e))
storage_step o (delete ctx key) s =
    let (s', e) = o.delete ctx key s in (s', observe_option sentinel_text e)
storage_step o (list ctx opts) s =
    let (s', (p, e)) = o.list ctx opts s in (s', (p, observe_option sentinel_text e))
