-- ===== src/Subscriptions/Messages.antt =====
-- pkg/subscribe/convert.go, and `writeData` of handler.go: the message of an event.
use brent.Base.{String, Option, none, some}
use brent.Api.Errors.{Error, Result, ok, ◌>>=◌}
use brent.Api.Types.{ApiSchema, Handler}
use brent.Api.Objects.{ApiEvent}
use brent.Api.Schemas.{Schemer, ApiSchemas, lookup_schema}
use brent.Requests.Handlers.{AccessControl}
use brent.Requests.Links.{UrlCode}
use brent.Requests.Parse.{ApiRequest}
use brent.Requests.Writers.{RawResource, GenericCollection, convert, or_default}

-- `Data` of an event: nothing, a resource, or the text of an error
pub data EventData : Type 0 where
  no_data : EventData
  of_resource : Option RawResource → EventData
  error_text : String → EventData

pub record Message : Type 0 where
  pub event : ApiEvent
  pub data_ : EventData

module _ (lib : Schemer) (control : AccessControl lib) (code : UrlCode)
    (format : Handler → ApiRequest lib → RawResource → RawResource)
    (format_collection : ApiRequest lib → ApiSchema → GenericCollection → GenericCollection)
    (text_of_error : Error → String) where
  abbrev pub with_schema_of : ApiRequest lib → ApiSchemas lib → ApiEvent → ApiRequest lib
  with_schema_of op schemas e = record op {
    schemas = some schemas;
    schema = or_default (lookup_schema lib e.object.type schemas) op.schema;
  }

  -- `MarshallObject` for an event without an error. The encoder of the converter, which only keeps
  -- the resource, never fails.
  unfoldable pub marshall_object : ApiRequest lib → ApiSchemas lib → ApiEvent → Result Message
  unfolding convert lookup_schema
  marshall_object op schemas e = do
    r ← convert lib control code format format_collection (with_schema_of op schemas e) e.object
    ok (record { event = e; data_ = of_resource r })

  abbrev pub message_of : ApiRequest lib → ApiSchemas lib → ApiEvent → Option Error → Result Message
  message_of op schemas e none = marshall_object op schemas e
  message_of op schemas e (some failure) = ok (record {
    event = record e { name = "resource.error" };
    data_ = error_text (text_of_error failure);
  })

  -- the message that `writeData` encodes
  unfoldable pub write_event : ApiRequest lib → ApiSchemas lib → ApiEvent → Result Message
  unfolding marshall_object
  write_event op schemas e = message_of op schemas e e.error
