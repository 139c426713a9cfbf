-- ===== src/Sdk.antt =====
-- pkg/sdk: the conversions between the core's types and the messages of its gRPC interface, the service
-- over an engine and the engine over a client of the service.
pub mod Wire
pub mod Convert
pub mod RoundTrip
pub mod Messages
pub mod Service
pub mod Client
pub mod Remote
pub mod RemoteGet
