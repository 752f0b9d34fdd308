-- ===== src/Python.antt =====
-- What the SDK uses of the Python language and its standard library: text, UTF-8, JSON values,
-- exceptions, and methods that mutate an object and may raise.
pub mod Text
pub mod Utf8
pub mod Json
pub mod FilePath
pub mod Action
