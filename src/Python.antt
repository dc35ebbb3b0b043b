-- ===== src/Python.antt =====
-- What the sources use of Python itself: exceptions, numbers, dynamic values, `sorted`, dicts.
pub mod Exceptions
pub mod Actions
pub mod Runtime
pub mod Dict
pub mod Sort
pub mod Strings
