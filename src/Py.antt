-- ===== src/Py.antt =====
-- What the components use of Python itself: values, texts, numbers, sets, exceptions and the
-- message bus as a process sees it.
pub mod Text
pub mod Float
pub mod Value
pub mod Act
pub mod Asking
pub mod Dict
pub mod Read
pub mod Maths
pub mod Run
